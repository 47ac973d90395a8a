-- ===== src/Memblock/Chronology.antt =====
-- Allocations and frees keep the lists in order of creation, as long as the clock does not go back.
use mathlib.Core.List.{append_assoc}
use memleax.Prelude.{
  All-append, true, false, ℕ, ◌^◌, ◌≤◌, ◌<◌, ◌≡◌, refl, sym, ap, ◌∙◌, Option, none, some, List, [],
  ◌∷◌, ◌++◌, arith, if◌then◌else◌, ◌==◌, update, erase, count, count-erase, count-append,
  erase-append, erase-absent, All, All-imp, count-cons,
}
use memleax.State.{Memblock, Tracker, Env}
use memleax.Memblock.{link_block, unlink_block, resize_block}
use memleax.Memblock.Valid.{IsValid}
use memleax.Memblock.Expiry.{create_of}
use memleax.Memblock.Order.{Ascending, creates, creates-append, creates_congr, IsOrdered}

-- A new last element, not below any other.
Ascending-snoc : (l : List ℕ) (n : ℕ) → Ascending l → All (λ t. t ≤ n) l → Ascending (l ++ n ∷ [])
Ascending-snoc [] n h k = (tt, tt)
Ascending-snoc (x ∷ l) n h k =
    (All-append (λ y. x ≤ y) l (n ∷ []) h.0 (k.0, tt), Ascending-snoc l n h.1 k.1)

module _ (b : ℕ → Option Memblock) (a : ℕ) where
  creates-update :
      (o : Option Memblock) (l : List ℕ) → count a l ≡ 0 → creates (update b a o) l ≡ creates b l
  unfolding creates
  creates-update o [] h = refl
  creates-update o (x ∷ l) h = ground (arith, creates-update o l, count-cons a x l)

  All-erase : (P : ℕ → Type 0) (l : List ℕ) → All P (creates b l) → All P (creates b (erase a l))
  unfolding creates erase
  All-erase P [] h = h
  All-erase P (x ∷ l) h =
      elim (a == x) as (λ t. All P (creates b (if t then l else x ∷ erase a l))) [
        | true ↦ h.1
        | false ↦ (h.0, All-erase P l h.1)
      ]

  Ascending-erase : (l : List ℕ) → Ascending (creates b l) → Ascending (creates b (erase a l))
  unfolding creates erase
  Ascending-erase [] h = h
  Ascending-erase (x ∷ l) h =
      elim (a == x) as (λ t. Ascending (creates b (if t then l else x ∷ erase a l))) [
        | true ↦ h.1
        | false ↦ (All-erase (λ y. create_of (b x) ≤ y) l h.0, Ascending-erase l h.1)
      ]

-- A later reading of the clock.
pub later-IsOrdered :
    (now then' : ℕ) (s : Tracker)
    → now ≤ then'
    → then' < 2 ^ 63
    → IsOrdered now s
    → IsOrdered then' s
later-IsOrdered now then' s le rep o = record {
  ascending = o.ascending;
  past = All-imp (λ t. t ≤ now) (λ t. t ≤ then') (λ t h. omega arith) _ o.past;
  representable = rep;
}

pub link-IsOrdered :
    (e : Env) (a c pointer size now : ℕ) (s : Tracker)
    → IsValid s
    → s.block a ≡ none
    → now ≤ e.now
    → e.now < 2 ^ 63
    → IsOrdered now s
    → IsOrdered e.now (link_block e a c pointer size s)
unfolding creates
link-IsOrdered e a c pointer size now s v free le rep o = record {
  ascending = rw grown (Ascending-snoc (creates s.block l) e.now o.ascending past');
  past =
      rw grown
        (All-append (λ t. t ≤ e.now) (creates s.block l) (e.now ∷ []) past' (omega arith, tt));
  representable = rep;
}
  where
    l : List ℕ
    l = s.expire ++ s.active

    t : Tracker
    t = link_block e a c pointer size s

    past' : All (λ t. t ≤ e.now) (creates s.block l)
    past' = All-imp (λ t. t ≤ now) (λ t. t ≤ e.now) (λ t h. omega arith) _ o.past

    absent : count a l ≡ 0
    absent = ground (arith, v.linked_active a, v.linked_expire a, count-append a s.expire s.active)

    last : creates t.block (a ∷ []) ≡ e.now ∷ []
    last = ground arith

    grown : creates t.block (t.expire ++ t.active) ≡ creates s.block l ++ e.now ∷ []
    grown =
        ap (creates t.block) (sym (append_assoc s.expire s.active (a ∷ [])))
        ∙ creates-append t.block l (a ∷ [])
        ∙ rw (creates-update s.block a _ l absent, last)

pub unlink-IsOrdered :
    (now a free_time time : ℕ) (mb : Memblock) (s : Tracker)
    → IsValid s
    → s.block a ≡ some mb
    → IsOrdered time s
    → IsOrdered time (unlink_block now a free_time mb s)
unlink-IsOrdered now a free_time time mb s v live o = record {
  ascending = rw shrunk (Ascending-erase s.block a l o.ascending);
  past = rw shrunk (All-erase s.block a (λ t. t ≤ time) l o.past);
  representable = o.representable;
}
  where
    l : List ℕ
    l = s.expire ++ s.active

    t : Tracker
    t = unlink_block now a free_time mb s

    both : t.expire ++ t.active ≡ erase a l
    both = ground (
      arith,
      erase-append a s.expire s.active,
      erase-absent a s.expire,
      erase-absent a s.active,
      v.linked_active a,
      v.linked_expire a,
    )

    gone : count a (erase a l) ≡ 0
    gone = ground (
      arith,
      count-erase a a l,
      count-append a s.expire s.active,
      v.linked_active a,
      v.linked_expire a,
    )

    shrunk : creates t.block (t.expire ++ t.active) ≡ creates s.block (erase a l)
    shrunk = ap (creates t.block) both ∙ creates-update s.block a none (erase a l) gone

pub resize-IsOrdered :
    (a size time : ℕ) (mb : Memblock) (s : Tracker)
    → s.block a ≡ some mb
    → IsOrdered time s
    → IsOrdered time (resize_block a size mb s)
resize-IsOrdered a size time mb s live o = record {
  ascending = rw same o.ascending;
  past = rw same o.past;
  representable = o.representable;
}
  where
    t : Tracker
    t = resize_block a size mb s

    same : creates t.block (t.expire ++ t.active) ≡ creates s.block (s.expire ++ s.active)
    same = creates_congr t.block s.block (λ q. ground arith) (s.expire ++ s.active)
