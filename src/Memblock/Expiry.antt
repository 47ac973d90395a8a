-- ===== src/Memblock/Expiry.antt =====
-- `memblock_expire`: which blocks move to the list of expired blocks, and what it returns.
use memleax.Prelude.{
  ℕ, ◌≡◌, refl, sym, ap, ◌∙◌, ◌≢◌, ◌⊎◌, inl, inr, Bool, true, false, not, Option, none, some, List,
  [], ◌∷◌, ◌++◌, arith, slt64, sub64, add64, int_of, minus_one, count, count-cons, erase,
  erase-absent, All, All-imp, Option-cases, Bool-cases,
}
use mathlib.Core.List.{append_assoc, append-nil}
use memleax.State.{Memblock, Tracker, Event}
use memleax.Memblock.{
  memblock_expire_one, memblock_expire, expire_loop, check_limits, Verdict, go_on, stop,
}
use memleax.Memblock.Lookup.{IsConsistent, Returns, Returns-imp}
use memleax.Memblock.Consistent.{expire_one-IsConsistent, print-IsConsistent}

-- `now - mb->create < expire` fails for the block.
abbrev pub is_due : ℕ → ℕ → Option Memblock → Bool
is_due now expire none = false
is_due now expire (some mb) = not (slt64 (sub64 now mb.create) expire)

abbrev pub create_of : Option Memblock → ℕ
create_of none = 0
create_of (some mb) = mb.create

-- The seconds that a block has left, and one.
abbrev pub wait_time : ℕ → ℕ → Memblock → ℕ
wait_time now expire mb = int_of (add64 (sub64 expire (sub64 now mb.create)) 1)

Verdict-cases : (v : Verdict) → (v ≡ go_on) ⊎ ((event : Event) × (v ≡ stop event))
Verdict-cases go_on = inl refl
Verdict-cases (stop event) = inr (event, refl)

module _ (now expire memblock_limit callstack_limit : ℕ) where
  -- Why the loop ended: the list is empty, its head is not due, or a limit is reached at the
  -- callstack of the block that expired last.
  pub data Ended (t : Tracker) : ℕ → Type 0 where
    emptied : t.active ≡ [] → Ended t 0
    waiting :
        (a : ℕ) (rest : List ℕ) (mb : Memblock)
        → t.active ≡ a ∷ rest
        → t.block a ≡ some mb
        → is_due now expire (some mb) ≡ false
        → Ended t (wait_time now expire mb)
    limited :
        (mb : Memblock) (event : Event)
        → check_limits memblock_limit callstack_limit (t.callstack mb.callstack) ≡ stop event
        → Ended t minus_one

  -- The blocks that moved stood first in the active list and were all due, both lists kept their
  -- order, no creation time changed, and the loop ended for one of its reasons.
  pub record Expired (s : Tracker) (r : ℕ × Tracker) : Type 0 where
    pub moved : List ℕ
    pub from_active : s.active ≡ moved ++ r.1.active
    pub to_expire : r.1.expire ≡ s.expire ++ moved
    pub due : All (λ a. is_due now expire (s.block a) ≡ true) moved
    pub ended : Ended r.1 r.0
    pub kept : (q : ℕ) → create_of (r.1.block q) ≡ create_of (s.block q)
    pub consistent : IsConsistent r.1

  head_active :
      (a : ℕ) (rest : List ℕ) (s : Tracker) (mb : Memblock)
      → IsConsistent s
      → s.active ≡ a ∷ rest
      → s.block a ≡ some mb
      → mb.expired ≡ false
  head_active a rest s mb k e m =
      ground (arith, k.valid.linked_active a, ap (count a) e, count-cons a a rest)

  head_live :
      (a : ℕ) (rest : List ℕ) (s : Tracker)
      → IsConsistent s
      → s.active ≡ a ∷ rest
      → s.block a ≢ none
  head_live a rest s k e m =
      ground (arith, k.valid.linked_active a, ap (count a) e, count-cons a a rest)

  one_moved :
      (a : ℕ) (rest : List ℕ) (s : Tracker) (mb : Memblock)
      → IsConsistent s
      → s.active ≡ a ∷ rest
      → s.block a ≡ some mb
      → ((memblock_expire_one a mb s).active ≡ rest)
        × ((memblock_expire_one a mb s).expire ≡ s.expire ++ a ∷ [])
        × IsConsistent (memblock_expire_one a mb s)
  unfolding memblock_expire_one erase
  one_moved a rest s mb k e m =
      let young = head_active a rest s mb k e m in
      let absent : count a s.expire ≡ 0 = ground (arith, k.valid.linked_expire a) in
      (
        rw e (ground arith),
        rw (erase-absent a s.expire absent),
        expire_one-IsConsistent s k a mb m young,
      )

  same_due :
      (a : ℕ) (s : Tracker) (mb : Memblock)
      → s.block a ≡ some mb
      → (q : ℕ)
      → is_due now expire ((memblock_expire_one a mb s).block q) ≡ is_due now expire (s.block q)
  unfolding memblock_expire_one
  same_due a s mb m q = ground arith

  same_create :
      (a : ℕ) (s : Tracker) (mb : Memblock)
      → s.block a ≡ some mb
      → (q : ℕ) → create_of ((memblock_expire_one a mb s).block q) ≡ create_of (s.block q)
  unfolding memblock_expire_one
  same_create a s mb m q = ground arith

  -- The first block of the active list has moved, and the loop goes on.
  Expired-cons :
      (a : ℕ) (rest : List ℕ) (s : Tracker) (mb : Memblock) (r : ℕ × Tracker)
      → IsConsistent s
      → s.active ≡ a ∷ rest
      → s.block a ≡ some mb
      → is_due now expire (some mb) ≡ true
      → Expired (memblock_expire_one a mb s) r
      → Expired s r
  Expired-cons a rest s mb r k e m old x =
      let (active', expire', _) = one_moved a rest s mb k e m in
      record {
        moved = a ∷ x.moved;
        from_active = e ∙ ap (◌∷◌ a) (sym active' ∙ x.from_active);
        to_expire = x.to_expire ∙ rw expire' (append_assoc s.expire (a ∷ []) x.moved);
        due = (
          rw m old,
          All-imp (λ q. is_due now expire ((memblock_expire_one a mb s).block q) ≡ true)
              (λ q. is_due now expire (s.block q) ≡ true) (λ q d. sym (same_due a s mb m q) ∙ d)
              x.moved x.due,
        );
        ended = x.ended;
        kept = λ q. x.kept q ∙ same_create a s mb m q;
        consistent = x.consistent;
      }

  Expired-nil :
      (s t : Tracker) (code : ℕ)
      → t.active ≡ s.active
      → t.expire ≡ s.expire
      → t.block ≡ s.block
      → Ended t code
      → IsConsistent t
      → Expired s (code, t)
  Expired-nil s t code e f g end k = record {
    moved = [];
    from_active = sym e;
    to_expire = f ∙ sym (append-nil s.expire);
    due = tt;
    ended = end;
    kept = λ q. rw g;
    consistent = k;
  }

  -- A limit is reached: the loop reports it and ends.
  Expired-stop :
      (s : Tracker) (mb : Memblock) (event : Event)
      → IsConsistent s
      → check_limits memblock_limit callstack_limit (s.callstack mb.callstack) ≡ stop event
      → Expired s (minus_one, record s { output = s.output ++ event ∷ [] })
  Expired-stop s mb event k h =
      Expired-nil s _ minus_one refl refl refl (limited mb event h) (print-IsConsistent s _ k)

  expire_loop-Expired :
      (l : List ℕ) (s : Tracker)
      → IsConsistent s
      → s.active ≡ l
      → Returns (expire_loop now expire memblock_limit callstack_limit l s) (Expired s)
  unfolding expire_loop
  expire_loop-Expired [] s k e = Expired-nil s s 0 refl refl refl (emptied e) k
  expire_loop-Expired (a ∷ rest) s k e = elim (Option-cases (s.block a)) [
    | inl m ↦ absurd (head_live a rest s k e m)
    | inr (mb, m) ↦
        let t = memblock_expire_one a mb s in
        let next = one_moved a rest s mb k e m in
        elim (Bool-cases (slt64 (sub64 now mb.create) expire)) [
          | inl young ↦
              rw (m, expire_loop, young)
                (Expired-nil s s _ refl refl refl (waiting a rest mb e m (ground arith)) k)
          | inr old ↦
              elim (Verdict-cases
                (check_limits memblock_limit callstack_limit (t.callstack mb.callstack))) [
                  | inl h ↦
                      rw (m, expire_loop, old, h)
                        (Returns-imp (Expired t) (Expired s) _
                          (λ r. Expired-cons a rest s mb r k e m (ground arith))
                          (expire_loop-Expired rest t next.2 next.0))
                  | inr (event, h) ↦
                      rw (m, expire_loop, old, h)
                        (Expired-cons a rest s mb _ k e m (ground arith)
                          (Expired-stop t mb event next.2 h))
                ]
        ]
  ]

  -- `memblock_expire` on a consistent tracker returns, and what it moves from the active list to
  -- the expired list is the beginning of the active list, of which every block is due; no other
  -- block moves, and the order of both lists stays. It ends at the first block that is not due, at
  -- the end of the list, or where a limit is reached, in which case due blocks may stay.
  pub memblock_expire-Expired :
      (s : Tracker)
      → IsConsistent s
      → Returns (memblock_expire now expire memblock_limit callstack_limit s) (Expired s)
  unfolding memblock_expire
  memblock_expire-Expired s k = expire_loop-Expired s.active s k refl
