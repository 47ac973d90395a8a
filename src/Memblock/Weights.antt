-- ===== src/Memblock/Weights.antt =====
-- Sums over the lists of memory blocks, and how linking, unlinking and changing a block moves them.
use memleax.Prelude.{
  ℕ, ◌+◌, ◌*◌, ◌≤◌, ◌≡◌, Option, none, some, List, [], ◌∷◌, ◌++◌, arith, if◌then◌else◌, ◌==◌,
  update, erase, count, count-erase, tally, tally-append, tally-cons, tally-nil, tally-erase,
  tally-off_one, erase-absent,
}
use memleax.State.{Memblock}

-- One for a block of callstack `c`, and its size.
abbrev pub owned_by : ℕ → Option Memblock → ℕ
owned_by c none = 0
owned_by c (some mb) = if mb.callstack == c then 1 else 0

abbrev pub bytes_by : ℕ → Option Memblock → ℕ
bytes_by c none = 0
bytes_by c (some mb) = if mb.callstack == c then mb.size else 0

pub weigh : (Option Memblock → ℕ) → (ℕ → Option Memblock) → List ℕ → ℕ
weigh w b l = tally (λ a. w (b a)) l

pub weigh-nil : (w : Option Memblock → ℕ) (b : ℕ → Option Memblock) → weigh w b [] ≡ 0
unfolding weigh
weigh-nil w b = tally-nil (λ a. w (b a))

pub weigh-zero :
    (w : Option Memblock → ℕ) (b : ℕ → Option Memblock)
    → ((a : ℕ) → w (b a) ≡ 0)
    → (l : List ℕ) → weigh w b l ≡ 0
unfolding weigh
weigh-zero w b h [] = tally-nil (λ a. w (b a))
weigh-zero w b h (x ∷ l) =
    let f : ℕ → ℕ = λ a. w (b a) in ground (arith, h x, weigh-zero w b h l, tally-cons f x l)

module _ (w : Option Memblock → ℕ) (b : ℕ → Option Memblock) (a : ℕ) (o : Option Memblock) where
  off_one :
      (l : List ℕ) → weigh w (update b a o) l + count a l * w (b a) ≡ weigh w b l + count a l * w o
  unfolding weigh
  off_one l =
      let h = tally-off_one (λ q. w (update b a o q)) (λ q. w (b q)) a (λ j n. ground arith) l in
      ground (arith, h)

  pub weigh-change :
      (l : List ℕ)
      → count a l ≤ 1
      → weigh w (update b a o) l + (if count a l == 0 then 0 else w (b a))
        ≡ weigh w b l + (if count a l == 0 then 0 else w o)
  weigh-change l h = grind (arith, off_one l)

  pub weigh-erase :
      (l : List ℕ)
      → count a l ≤ 1
      → weigh w (update b a o) (erase a l) + (if count a l == 0 then 0 else w (b a)) ≡ weigh w b l
  weigh-erase l h = ground (arith, weigh-change (erase a l), count-erase a a l, dropped)
    where
      dropped : weigh w b (erase a l) + (if count a l == 0 then 0 else w (b a)) ≡ weigh w b l
      dropped = unfold weigh in ground (arith, tally-erase (λ q. w (b q)) a l, erase-absent a l)

  pub weigh-append :
      (l : List ℕ) → count a l ≡ 0 → weigh w (update b a o) (l ++ a ∷ []) ≡ weigh w b l + w o
  weigh-append l h = ground (arith, weigh-change l, split)
    where
      split : weigh w (update b a o) (l ++ a ∷ []) ≡ weigh w (update b a o) l + w o
      split =
          unfold weigh in
          let f : ℕ → ℕ = λ q. w (update b a o q) in
          ground (arith, tally-append f l (a ∷ []), tally-cons f a [], tally-nil f)
