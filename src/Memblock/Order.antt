-- ===== src/Memblock/Order.antt =====
-- The lists in order of creation: after `memblock_expire` no block that is left is due.
use mathlib.Core.List.{append_assoc}
use memleax.Prelude.{
  ℕ, ◌+◌, ◌^◌, ◌≤◌, ◌<◌, ◌≡◌, refl, sym, ap, subst, ◌∙◌, ◌⊎◌, Option, List, [], ◌∷◌, ◌++◌, All,
}
use memleax.State.{Memblock, Tracker}
use memleax.Memblock.Expiry.{create_of, Expired}

-- Every element is at most what comes after it.
abbrev pub Ascending : List ℕ → Type 0
Ascending [] = Unit
Ascending (x ∷ xs) = All (λ y. x ≤ y) xs × Ascending xs

-- When the blocks of a list were created.
unfoldable pub creates : (ℕ → Option Memblock) → List ℕ → List ℕ
creates b [] = []
creates b (a ∷ l) = create_of (b a) ∷ creates b l

pub creates-append :
    (b : ℕ → Option Memblock) (l m : List ℕ) → creates b (l ++ m) ≡ creates b l ++ creates b m
unfolding creates
creates-append b [] m = refl
creates-append b (a ∷ l) m = ap (◌∷◌ (create_of (b a))) (creates-append b l m)

pub creates_congr :
    (b c : ℕ → Option Memblock)
    → ((a : ℕ) → create_of (b a) ≡ create_of (c a))
    → (l : List ℕ) → creates b l ≡ creates c l
unfolding creates
creates_congr b c h [] = refl
creates_congr b c h (a ∷ l) = rw (h a, creates_congr b c h l)

pub Ascending-drop : (l m : List ℕ) → Ascending (l ++ m) → Ascending m
Ascending-drop [] m h = h
Ascending-drop (x ∷ l) m h = Ascending-drop l m h.1

pub All-drop : (P : ℕ → Type 0) (l m : List ℕ) → All P (l ++ m) → All P m
All-drop P [] m h = h
All-drop P (x ∷ l) m h = All-drop P l m h.1

-- The expired blocks are older than the active ones, each list is in order of creation, and no
-- block was created after `now`, a time that `time_t` holds.
pub record IsOrdered (now : ℕ) (s : Tracker) : Type 0 where
  pub ascending : Ascending (creates s.block (s.expire ++ s.active))
  pub past : All (λ t. t ≤ now) (creates s.block (s.expire ++ s.active))
  pub representable : now < 2 ^ 63

module _ (now expire memblock_limit callstack_limit : ℕ) where
  -- Expiry leaves the blocks in the same order.
  pub Expired-IsOrdered :
      (s : Tracker) (r : ℕ × Tracker)
      → Expired now expire memblock_limit callstack_limit s r
      → IsOrdered now s
      → IsOrdered now r.1
  Expired-IsOrdered s r x o = record {
    ascending = subst Ascending same o.ascending;
    past = subst (All (λ t. t ≤ now)) same o.past;
    representable = o.representable;
  }
    where
      joined : s.expire ++ s.active ≡ r.1.expire ++ r.1.active
      joined =
          rw (x.to_expire, append_assoc s.expire x.moved r.1.active)
            (ap (◌++◌ s.expire) x.from_active)

      same : creates s.block (s.expire ++ s.active) ≡ creates r.1.block (r.1.expire ++ r.1.active)
      same =
          ap (creates s.block) joined
          ∙ sym (creates_congr r.1.block s.block x.kept (r.1.expire ++ r.1.active))

  -- No active block is due, and the result is the seconds until the oldest of them is, and one, or
  -- 0 if there is none.
  pub record Settled (r : ℕ × Tracker) : Type 0 where
    pub young : All (λ t. now < t + expire) (creates r.1.block r.1.active)
    pub next : (r.0 ≡ 0) × (r.1.active ≡ []) ⊎ (0 < r.0) × (r.0 ≤ expire + 1)
    pub soon : All (λ t. now + r.0 ≤ t + expire + 1) (creates r.1.block r.1.active)
