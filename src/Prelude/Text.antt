-- ===== src/Prelude/Text.antt =====
-- C strings, as the bytes before the NUL that ends them.
use Prim.Native.Char.{code}
use Prim.Native.String.{String}
use Prim.Native.Nat.{ℕ}
use mathlib.Core.Path.{◌≡◌}
use mathlib.Core.Logic.{◌↔◌}
use mathlib.Core.Bool.{Bool, true, false, ◌&&◌}
use mathlib.Core.List.{List, [], ◌∷◌}
use native.Mathlib.Omega.{arith}
use memleax.Prelude.Tests.{◌==◌, if◌then◌else◌}

-- The bytes of a literal.
abbrev pub codes : String → List ℕ
codes String.[] = []
codes (String.◌∷◌ c s) = code c ∷ codes s

-- strcmp(a, b) == 0
abbrev pub same_string : List ℕ → List ℕ → Bool
same_string [] [] = true
same_string [] (y ∷ b) = false
same_string (x ∷ a) [] = false
same_string (x ∷ a) (y ∷ b) = x == y && same_string a b

pub same_string_iff : (a b : List ℕ) → (same_string a b ≡ true) ↔ (a ≡ b)
same_string_iff [] [] = ground arith
same_string_iff [] (y ∷ b) = ground arith
same_string_iff (x ∷ a) [] = ground arith
same_string_iff (x ∷ a) (y ∷ b) = ground (arith, same_string_iff a b)

-- The string in a buffer: the bytes up to the first NUL, or all of them if there is none.
abbrev pub c_string : List ℕ → List ℕ
c_string [] = []
c_string (c ∷ buf) = let rest = c_string buf in if c == 0 then [] else c ∷ rest
