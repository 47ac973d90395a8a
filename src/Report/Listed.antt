-- ===== src/Report/Listed.antt =====
-- Which callstacks the report lists: what the count at its start keeps, and what the table's nodes are.
use mathlib.Core.List.{append-nil, append_assoc}
use memleax.Prelude.{
  ap, ◌∙◌, count-append, length-append, sym, ◌==◌, count-nil, subst, ◌&&◌, count-erase, inr,
  count-cons, inl, ◌^◌, if◌then◌else◌, ◌+◌, ◌≢◌, ◌≤◌, leb, ltb, ℕ, zero, suc, Bool, true, false,
  Option, none, some, List, [], ◌∷◌, ◌++◌, ◌≡◌, refl, arith, length, count, erase, All,
  Option-cases, Bool-cases,
}
use memleax.Hash.{Table, hash_size, hash_slot}
use memleax.State.{Memblock, Tracker}
use memleax.Callstack.Index.{SameStacks, IsIndexed}
use memleax.Memblock.{count_one, count_loop, memblock_count}
use memleax.Memblock.Valid.{IsValid}
use memleax.Memblock.Lookup.{Returns, Returns-imp}
use memleax.Memblock.Unfreed.{two_loops, blocks_live}
use memleax.Array.{Array, array_store}
use memleax.Array.Growth.{Holds, array_push-Holds}
use memleax.Report.{hash_for_each, leaks, push_loop, nodes_from}

-- What counting ages leaves alone.
pub record Kept (s t : Tracker) : Type 0 where
  pub stacks : SameStacks s t
  pub expired : (c : ℕ) → (t.callstack c).expired_count ≡ (s.callstack c).expired_count
  pub free_expired :
      (c : ℕ) → (t.callstack c).free_expired_count ≡ (s.callstack c).free_expired_count
  pub blocks : t.block ≡ s.block

one-Kept : (now : ℕ) (mb : Memblock) (s t : Tracker) → Kept (count_one now mb s) t → Kept s t
one-Kept now mb s t k = record {
  stacks = record {
    same_num = k.stacks.same_num;
    same_hash = k.stacks.same_hash;
    same_ips = λ c. ground (arith, k.stacks.same_ips c);
  };
  expired = λ c. ground (arith, k.expired c);
  free_expired = λ c. ground (arith, k.free_expired c);
  blocks = k.blocks;
}

count_loop-Kept :
    (now : ℕ) (l : List ℕ) (s : Tracker)
    → All (λ a. s.block a ≢ none) l
    → Returns (count_loop now l s) (Kept s)
unfolding count_loop
count_loop-Kept now [] s live = record {
  stacks = record { same_num = refl; same_hash = refl; same_ips = λ c. refl };
  expired = λ c. refl;
  free_expired = λ c. refl;
  blocks = refl;
}
count_loop-Kept now (a ∷ l) s (here, live) = elim (Option-cases (s.block a)) [
  | inl m ↦ absurd (here m)
  | inr (mb, m) ↦
      rw (m, count_loop)
        (Returns-imp (Kept (count_one now mb s)) (Kept s) _ (one-Kept now mb s)
          (count_loop-Kept now l (count_one now mb s) live))
]

pub memblock_count-Kept :
    (now : ℕ) (s : Tracker) → IsValid s → Returns (memblock_count now s) (Kept s)
memblock_count-Kept now s v =
    rw two_loops (count_loop-Kept now (s.expire ++ s.active) s (blocks_live now s v))

-- A node that stands once in the chain of one slot, or nowhere.
nodes-count :
    (hash : Table) (c slot : ℕ) (known : Bool)
    → ((n : ℕ) → count c (hash n) ≡ (if known && (slot == n) then 1 else 0))
    → (k i : ℕ)
    → count c (nodes_from k i hash) ≡ (if known && (leb i slot && ltb slot (i + k)) then 1 else 0)
unfolding nodes_from
nodes-count hash c slot known h zero i = ground (arith, count-nil c)
nodes-count hash c slot known h (suc k) i = ground (
  arith,
  h i,
  nodes-count hash c slot known h k (suc i),
  count-append c (hash i) (nodes_from k (suc i) hash),
)

-- Each callstack stands once among the nodes of the table, and nothing else does.
pub table_nodes :
    (s : Tracker) (c : ℕ)
    → IsIndexed s
    → count c (hash_for_each s.callstack_hash) ≡ (if ltb c s.callstack_num then 1 else 0)
unfolding hash_slot hash_for_each
table_nodes s c v = ground (
  arith,
  nodes-count s.callstack_hash c (hash_slot (s.callstack c).ips) (ltb c s.callstack_num)
      (v.chained c) hash_size 0,
)

length-erase : (q : ℕ) (xs : List ℕ) → length xs ≤ suc (length (erase q xs))
unfolding erase
length-erase q [] = omega arith
length-erase q (x ∷ xs) = ground (arith, length-erase q xs)

-- A list without repetition of numbers below n has at most n of them.
pub length-le :
    (n : ℕ) (xs : List ℕ) → ((c : ℕ) → count c xs ≤ (if ltb c n then 1 else 0)) → length xs ≤ n
length-le zero [] h = omega arith
length-le zero (x ∷ xs) h = ground (arith, h x, count-cons x x xs)
length-le (suc n) xs h =
    let rest = length-le n (erase n xs) (λ c. ground (arith, h c, count-erase n c xs)) in
    omega (arith, rest, length-erase n xs)

module _ (s : Tracker) where
  -- The nodes of callstacks that leak.
  abbrev pub leaking : List ℕ → List ℕ
  leaking [] = []
  leaking (c ∷ rest) = elim (leaks (s.callstack c)) [
    | true ↦ c ∷ leaking rest
    | false ↦ leaking rest
  ]

  pub count-leaking :
      (c : ℕ) (cs : List ℕ)
      → count c (leaking cs) ≡ (if leaks (s.callstack c) then count c cs else 0)
  count-leaking c [] = ground (arith, count-nil c)
  count-leaking c (d ∷ rest) =
      ground (arith, count-leaking c rest, count-cons c d rest, count-cons c d (leaking rest))

  -- Where the allocations succeed the loop ends with those nodes in the array.
  pub push_loop-Holds :
      (cs : List ℕ) (a : Array ℕ) (xs : List ℕ)
      → Holds a xs
      → length xs + length cs ≤ 2 ^ 30
      → (a' : Array ℕ) × (push_loop (λ n. true) s cs a ≡ some a') × Holds a' (xs ++ leaking cs)
  unfolding push_loop
  push_loop-Holds [] a xs h small = (a, refl, subst (Holds a) (sym (append-nil xs)) h)
  push_loop-Holds (c ∷ rest) a xs h small = elim (Bool-cases (leaks (s.callstack c))) [
    | inl e ↦
        let taken : leaking (c ∷ rest) ≡ c ∷ leaking rest = rw (leaking, e) refl in
        let (a', r, pushes, m, last, fits, h') = array_push-Holds a xs c h (omega arith) in
        let (b, loop, held) =
          push_loop-Holds rest (array_store a' (length xs) c) (xs ++ c ∷ []) h'
            (omega (arith, small, length-append xs (c ∷ []))) in
        (
          b,
          rw (push_loop, e)
              (ap
                  (λ (p : Option ℕ × Array ℕ). elim p.0 [
                    | none ↦ none
                    | some i ↦ push_loop (λ n. true) s rest (array_store p.1 i c)
                  ])
                  pushes
                ∙ loop),
          subst (Holds b) (append_assoc xs (c ∷ []) (leaking rest) ∙ ap (λ l. xs ++ l) (sym taken))
              held,
        )
    | inr e ↦
        let skipped : leaking (c ∷ rest) ≡ leaking rest = rw (leaking, e) refl in
        let (b, loop, held) = push_loop-Holds rest a xs h (omega arith) in
        (b, rw (e, push_loop) loop, subst (Holds b) (ap (λ l. xs ++ l) (sym skipped)) held)
  ]
