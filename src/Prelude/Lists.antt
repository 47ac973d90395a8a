-- ===== src/Prelude/Lists.antt =====
-- Sequences measured, indexed and counted by native numbers. A `list_head` or an `hlist_head`
-- of list.h stands for the sequence of the nodes that it links.
use Prim.Native.Nat.{ℕ, zero, suc, ◌+◌, ◌-◌, ◌*◌, ◌<◌}
use mathlib.Core.Path.{◌≡◌, refl, ap}
use mathlib.Core.List.{List, [], ◌∷◌, ◌++◌, map}
use mathlib.Core.Logic.{◌≢◌}
use mathlib.Core.Option.{Option, none, some}
use native.Mathlib.Omega.{arith}
use memleax.Prelude.Tests.{◌==◌, if◌then◌else◌}

module _ {ℓ} {A : Type ℓ} where
  abbrev pub length : List A → ℕ
  length [] = 0
  length (x ∷ xs) = suc (length xs)

  abbrev pub get_elem? : List A → ℕ → Option A
  get_elem? [] i = none
  get_elem? (x ∷ xs) zero = some x
  get_elem? (x ∷ xs) (suc i) = get_elem? xs i

  pub length-append : (xs ys : List A) → length (xs ++ ys) ≡ length xs + length ys
  length-append [] ys = omega arith
  length-append (x ∷ xs) ys = omega (arith, length-append xs ys)

  pub inside_list : (xs : List A) (i : ℕ) → i < length xs → (x : A) × (get_elem? xs i ≡ some x)
  inside_list [] i h = absurd (omega arith)
  inside_list (x ∷ xs) zero h = (x, refl)
  inside_list (x ∷ xs) (suc i) h = inside_list xs i (omega arith)

  pub get_elem-lt : (xs : List A) (i : ℕ) (x : A) → get_elem? xs i ≡ some x → i < length xs
  get_elem-lt [] i x e = ground arith
  get_elem-lt (y ∷ xs) zero x e = omega arith
  get_elem-lt (y ∷ xs) (suc i) x e = omega (arith, get_elem-lt xs i x e)

  -- A store of objects, or an array, as a function of the address or the index.
  abbrev pub update : (ℕ → A) → ℕ → A → ℕ → A
  update f i v j = if i == j then v else f j

abbrev pub rest_of {ℓ} : {A : Type ℓ} → List A → List A
rest_of [] = []
rest_of (x ∷ xs) = xs

-- A predicate at every element.
abbrev pub All {ℓ κ} : {A : Type ℓ} → (A → Type κ) → List A → Type κ
All P [] = Unit
All P (x ∷ xs) = P x × All P xs

pub All-imp {ℓ κ λ'} :
    {A : Type ℓ} (P : A → Type κ) (Q : A → Type λ')
    → ((x : A) → P x → Q x)
    → (xs : List A) → All P xs
    → All Q xs
All-imp P Q f [] h = tt
All-imp P Q f (x ∷ xs) h = (f x h.0, All-imp P Q f xs h.1)

-- How often a node stands in a sequence.
pub length-map {ℓ κ} :
    {A : Type ℓ} {B : Type κ} (f : A → B) (xs : List A) → length (map f xs) ≡ length xs
length-map f [] = refl
length-map f (x ∷ xs) = ap suc (length-map f xs)

pub All-append {ℓ κ} :
    {A : Type ℓ} (P : A → Type κ) (l m : List A) → All P l → All P m → All P (l ++ m)
All-append P [] m h k = k
All-append P (x ∷ l) m h k = (h.0, All-append P l m h.1 k)

pub count : ℕ → List ℕ → ℕ
count q [] = 0
count q (x ∷ xs) = (if q == x then 1 else 0) + count q xs

-- Unlinking a node.
unfoldable pub erase : ℕ → List ℕ → List ℕ
erase q [] = []
erase q (x ∷ xs) = if q == x then xs else x ∷ erase q xs

-- The sum of a weight over the nodes of a sequence.
pub tally : (ℕ → ℕ) → List ℕ → ℕ
tally f [] = 0
tally f (x ∷ xs) = f x + tally f xs

pub count-nil : (q : ℕ) → count q [] ≡ 0
unfolding count
count-nil q = refl

pub count-cons : (q x : ℕ) (xs : List ℕ) → count q (x ∷ xs) ≡ (if q == x then 1 else 0) + count q xs
unfolding count
count-cons q x xs = refl

pub count-append : (q : ℕ) (xs ys : List ℕ) → count q (xs ++ ys) ≡ count q xs + count q ys
unfolding count
count-append q [] ys = omega arith
count-append q (x ∷ xs) ys = omega (arith, count-append q xs ys)

pub count-erase :
    (i q : ℕ) (xs : List ℕ) → count q (erase i xs) ≡ (if i == q then count q xs - 1 else count q xs)
unfolding count erase
count-erase i q [] = ground arith
count-erase i q (x ∷ xs) = ground (arith, count-erase i q xs)

pub erase-absent : (i : ℕ) (xs : List ℕ) → count i xs ≡ 0 → erase i xs ≡ xs
unfolding count erase
erase-absent i [] h = refl
erase-absent i (x ∷ xs) h = ground (arith, erase-absent i xs)

pub erase-append :
    (i : ℕ) (xs ys : List ℕ)
    → erase i (xs ++ ys) ≡ (if count i xs == 0 then xs ++ erase i ys else erase i xs ++ ys)
unfolding count erase
erase-append i [] ys = refl
erase-append i (x ∷ xs) ys = ground (arith, erase-append i xs ys)

pub All-count {κ} : (P : ℕ → Type κ) (xs : List ℕ) → ((q : ℕ) → 0 < count q xs → P q) → All P xs
unfolding count
All-count P [] h = tt
All-count P (x ∷ xs) h = (h x (ground arith), All-count P xs (λ q c. h q (ground arith)))

pub tally-cons : (f : ℕ → ℕ) (x : ℕ) (xs : List ℕ) → tally f (x ∷ xs) ≡ f x + tally f xs
unfolding tally
tally-cons f x xs = refl

pub tally-nil : (f : ℕ → ℕ) → tally f [] ≡ 0
unfolding tally
tally-nil f = refl

pub tally-append : (f : ℕ → ℕ) (xs ys : List ℕ) → tally f (xs ++ ys) ≡ tally f xs + tally f ys
unfolding tally
tally-append f [] ys = omega arith
tally-append f (x ∷ xs) ys = omega (arith, tally-append f xs ys)

pub tally-erase :
    (f : ℕ → ℕ) (i : ℕ) (xs : List ℕ) → 0 < count i xs → tally f (erase i xs) + f i ≡ tally f xs
unfolding count erase tally
tally-erase f i [] h = absurd (omega arith)
tally-erase f i (x ∷ xs) h = ground (arith, tally-erase f i xs)

-- Two weights that differ at one node only.
pub tally-off_one :
    (f g : ℕ → ℕ) (i : ℕ)
    → ((j : ℕ) → j ≢ i → f j ≡ g j)
    → (xs : List ℕ) → tally f xs + count i xs * g i ≡ tally g xs + count i xs * f i
unfolding count tally
tally-off_one f g i h [] = omega arith
tally-off_one f g i h (x ∷ xs) = grind (arith, h x, tally-off_one f g i h xs)
