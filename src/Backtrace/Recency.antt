-- ===== src/Backtrace/Recency.antt =====
-- The table of thread spaces holds the threads used last, in the order of their use.
use memleax.Prelude.{
  Option, rest_of, ap, inr, inl, Bool-cases, true, ◌||◌, ◌==◌, arith, ◌≢◌, All, erase, ℕ, zero, suc,
  ◌≡◌, refl, none, some, List, [], ◌∷◌,
}
use memleax.Backtrace.{
  blanks, ThreadSpace, space_search, space_for, space_expired, space_head_inited, space_max,
  use_space,
}

abbrev pub threads : List ThreadSpace → List ℕ
threads [] = []
threads (sp ∷ rest) = sp.thread_id ∷ threads rest

-- The first n of a history, with zeros where it is shorter.
abbrev pub window : ℕ → List ℕ → List ℕ
window zero h = []
window (suc n) [] = 0 ∷ window n []
window (suc n) (t ∷ h) = t ∷ window n h

-- The threads that were ever used, the one used last first.
abbrev pub touch : ℕ → List ℕ → List ℕ
touch t h = t ∷ erase t h

abbrev pub NoZero : List ℕ → Type 0
NoZero = All (λ t. t ≢ 0)

-- The space that is found is the thread's own, one not used yet, or the last, and the others keep
-- their order.
search-window :
    (P : ThreadSpace → Type 0) (t : ℕ) (n : ℕ) (spaces : List ThreadSpace) (h : List ℕ)
    → NoZero h
    → threads spaces ≡ window (suc n) h
    → All P spaces
    → (sp : ThreadSpace) × (others : List ThreadSpace) × (space_search t spaces ≡ some (sp, others))
      × (threads others ≡ window n (erase t h))
      × P sp
      × All P others
unfolding space_search erase
search-window P t n [] [] nz e ps = ground arith
search-window P t n [] (x ∷ h) nz e ps = ground arith
search-window P t zero (sp ∷ []) h nz e ps = (sp, [], refl, refl, ps.0, tt)
search-window P t (suc n) (sp ∷ []) [] nz e ps = ground arith
search-window P t (suc n) (sp ∷ []) (x ∷ h) nz e ps = ground arith
search-window P t zero (sp ∷ sp' ∷ rest) [] nz e ps = ground arith
search-window P t zero (sp ∷ sp' ∷ rest) (x ∷ h) nz e ps = ground arith
search-window P t (suc n) (sp ∷ sp' ∷ rest) [] nz e ps =
    let blank : (sp.thread_id == 0 || sp.thread_id == t) ≡ true = ground (arith, e) in
    (sp, sp' ∷ rest, rw blank refl, ap rest_of e, ps.0, ps.1)
search-window P t (suc n) (sp ∷ sp' ∷ rest) (x ∷ h) (nonzero, nz) e ps =
    let head : sp.thread_id ≡ x = ground (arith, e) in
    let tail : threads (sp' ∷ rest) ≡ window (suc n) h = ap rest_of e in
    elim (Bool-cases (t == x)) [
      | inl own ↦ (sp, sp' ∷ rest, ground (arith, head, own), rw own tail, ps.0, ps.1)
      | inr other ↦
          let (found, others, e', e'', p, ps') = search-window P t n (sp' ∷ rest) h nz tail ps.1 in
          (
            found,
            sp ∷ others,
            ground (arith, head, other, nonzero, e'),
            ground (arith, head, other, e''),
            p,
            (ps.0, ps'),
          )
    ]

erase-NoZero : (t : ℕ) (h : List ℕ) → NoZero h → NoZero (erase t h)
unfolding erase
erase-NoZero t [] nz = tt
erase-NoZero t (x ∷ h) (nonzero, nz) = elim (Bool-cases (t == x)) [
  | inl own ↦ rw own nz
  | inr other ↦ rw other (nonzero, erase-NoZero t h nz)
]

-- A space in use is the one that was made for its thread.
abbrev pub Owned : (ℕ → ℕ) → ThreadSpace → Type 0
Owned owner sp = sp.thread_id ≢ 0 → owner sp.uspace ≡ sp.thread_id

-- The table after a history h.
pub record Recent (owner : ℕ → ℕ) (h : List ℕ) (spaces : List ThreadSpace) : Type 0 where
  pub order : threads (space_head_inited spaces) ≡ window space_max h
  pub owned : All (Owned owner) (space_head_inited spaces)

use_space-Recent :
    (owner : ℕ → ℕ) (t created : ℕ) (h : List ℕ) (spaces : List ThreadSpace)
    → NoZero h
    → owner created ≡ t
    → Recent owner h spaces
    → (spaces' : List ThreadSpace) × (destroyed : List ℕ) × (use_space t created spaces
        ≡ some (spaces', destroyed))
      × Recent owner (touch t h) spaces'
unfolding use_space
use_space-Recent owner t created h spaces nz own r =
    let (sp, others, found, rest, sp_owned, others_owned) =
      search-window (Owned owner) t 9 (space_head_inited spaces) h nz r.order r.owned in
    (
      space_for t created sp ∷ others,
      space_expired t sp,
      rw (use_space, found) refl,
      elim (Bool-cases (sp.thread_id == t)) [
        | inl same ↦
            let e : sp.thread_id ≡ t = ground (arith, same) in
            record { order = rw (same, rest, e) refl; owned = (rw same sp_owned, others_owned) }
        | inr new ↦ record {
          order = rw (new, rest) refl;
          owned = (rw new (λ nonzero. own), others_owned);
        }
      ],
    )

blanks-Owned : (owner : ℕ → ℕ) (n : ℕ) → All (Owned owner) (blanks n)
blanks-Owned owner zero = tt
blanks-Owned owner (suc n) = ((λ nonzero. absurd (nonzero refl)), blanks-Owned owner n)

-- Calls of the unwinder, the last first: the thread, and what libunwind makes for it.
abbrev pub calls : List (ℕ × ℕ) → Option (List ThreadSpace)
calls [] = some []
calls ((t, created) ∷ cs) = elim (calls cs) [
  | none ↦ none
  | some spaces ↦ elim (use_space t created spaces) [
    | none ↦ none
    | some (spaces', destroyed) ↦ some spaces'
  ]
]

abbrev pub history : List (ℕ × ℕ) → List ℕ
history [] = []
history ((t, created) ∷ cs) = touch t (history cs)

history-NoZero : (cs : List (ℕ × ℕ)) → All (λ c. c.0 ≢ 0) cs → NoZero (history cs)
history-NoZero [] nz = tt
history-NoZero ((t, created) ∷ cs) (nonzero, nz) =
    (nonzero, erase-NoZero t (history cs) (history-NoZero cs nz))

-- After any calls for threads whose ids are not zero, where libunwind makes a space for the thread that
-- it is asked for, the table holds the ten threads used last, in the order of their last use, and each
-- of them has a space that was made for it.
pub calls-Recent :
    (owner : ℕ → ℕ) (cs : List (ℕ × ℕ))
    → All (λ c. c.0 ≢ 0) cs
    → All (λ c. owner c.1 ≡ c.0) cs
    → (spaces : List ThreadSpace) × (calls cs ≡ some spaces) × Recent owner (history cs) spaces
calls-Recent owner [] nz own =
    ([], refl, record { order = refl; owned = blanks-Owned owner space_max })
calls-Recent owner ((t, created) ∷ cs) (nonzero, nz) (own, owns) =
    let (spaces, e, r) = calls-Recent owner cs nz owns in
    let (spaces', destroyed, e', r') =
      use_space-Recent owner t created (history cs) spaces (history-NoZero cs nz) own r in
    (spaces', rw (e, e') refl, r')
