-- ===== src/ProcInfo/Repeats.antt =====
-- The loops over the calls of a walk, and what they come to.
use mathlib.Core.Option.{some-injective, none-ne-some}
use memleax.Prelude.{◌∙◌, ℕ, zero, suc, Option, none, some, List, [], ◌∷◌, ◌≡◌, refl, ap}
use memleax.ProcInfo.{Next, item, over, exits}
use memleax.ProcInfo.Walks.{walk, continued}

-- `while ((x = call()) != NULL) body`: `each` is the body and what follows it. `none` if memleax
-- exits or the fuel does not suffice.
module _ {ℓ} {A S B : Type ℓ} (call : S → Next A × S) (each : A → Option B → Option B)
    (done : B) where
  abbrev pub repeated : Next A → Option B → Option B
  repeated (item a) later = each a later
  repeated over later = some done
  repeated exits later = none

  unfoldable pub repeat : ℕ → S → Option B
  repeat zero s = none
  repeat (suc fuel) s = repeated (call s).0 (repeat fuel (call s).1)

  -- The body for every item of a list.
  abbrev pub for_each : List A → Option B
  for_each [] = some done
  for_each (a ∷ items) = each a (for_each items)

  -- A loop over the calls does what the body does for each item of the walk.
  pub repeat-for_each :
      (fuel : ℕ) (s : S) (items : List A) (end : S)
      → walk call fuel s ≡ some (items, end)
      → repeat fuel s ≡ for_each items
  unfolding walk repeat
  repeat-for_each zero s items end e = absurd (none-ne-some _ e)
  repeat-for_each (suc fuel) s items end e =
      go (call s).0 (call s).1 _ refl e (λ s' l end' h. repeat-for_each fuel s' l end' h)
    where
      go :
          (r : Next A) (s' : S) (w : Option (List A × S))
          → walk call fuel s' ≡ w
          → continued call r s' w ≡ some (items, end)
          → ((s' : S) (l : List A) (end' : S)
              → walk call fuel s' ≡ some (l, end')
              → repeat fuel s' ≡ for_each l)
          → repeated r (repeat fuel s') ≡ for_each items
      go (item a) s' none h e later = absurd (none-ne-some _ e)
      go (item a) s' (some (l, end')) h e later =
          ap (each a) (later s' l end' h)
          ∙ ap (λ (p : List A × S). for_each p.0) (some-injective _ _ e)
      go over s' w h e later = ap (λ (p : List A × S). for_each p.0) (some-injective _ _ e)
      go exits s' w h e later = absurd (none-ne-some _ e)
