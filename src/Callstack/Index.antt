-- ===== src/Callstack/Index.antt =====
-- The table of callstacks: `callstack_current` finds or adds, and never adds one twice.
use mathlib.Core.Option.{some-injective, none-ne-some}
use memleax.Prelude.{
  ℕ, ◌<◌, ◌≡◌, ap, subst, ◌≢◌, inl, inr, true, false, ◌&&◌, Option, none, some, arith,
  if◌then◌else◌, ◌==◌, ltb, count, count-cons, Option-cases,
}
use memleax.Hash.{hash_slot, hash_add, hash_search, memcmp}
use memleax.Hash.Chains.{memcmp_refl, chain_search_found, chain_search_missed, chain_search_total}
use memleax.State.{Tracker, Env}
use memleax.Callstack.{ips_at, current_ips, add_callstack, found_or_new, callstack_current}

-- Each callstack stands once in the chain of its backtrace and nothing else does, and no two have
-- the same backtrace.
pub record IsIndexed (s : Tracker) : Type 0 where
  pub chained :
      (c n : ℕ)
      → count c (s.callstack_hash n)
        ≡ (if ltb c s.callstack_num && (hash_slot (s.callstack c).ips == n) then 1 else 0)
  pub distinct :
      (c d : ℕ)
      → c < s.callstack_num
      → d < s.callstack_num
      → (s.callstack c).ips ≡ (s.callstack d).ips
      → c ≡ d

-- A step that leaves the table and the backtraces alone.
pub record SameStacks (s t : Tracker) : Type 0 where
  pub same_num : t.callstack_num ≡ s.callstack_num
  pub same_hash : t.callstack_hash ≡ s.callstack_hash
  pub same_ips : (c : ℕ) → (t.callstack c).ips ≡ (s.callstack c).ips

pub SameStacks-IsIndexed : (s t : Tracker) → SameStacks s t → IsIndexed s → IsIndexed t
SameStacks-IsIndexed s t same v = record {
  chained = λ c n. rw (same.same_num, same.same_hash, same.same_ips c) (v.chained c n);
  distinct = λ c d p q e.
      v.distinct c d (ground (arith, same.same_num)) (ground (arith, same.same_num))
        (ground (arith, same.same_ips c, same.same_ips d));
}

-- No callstack in the table is a proper prefix of the backtrace that is looked up.
abbrev pub NoOverrun : Env → Tracker → Type 0
NoOverrun e s = (c : ℕ) → c < s.callstack_num → memcmp (s.callstack c).ips (current_ips e) ≢ none

-- The three ways that `callstack_current` returns.
pub data Current (e : Env) (s : Tracker) : Option ℕ → Tracker → Type 0 where
  found :
      (c : ℕ)
      → c < s.callstack_num
      → memcmp (s.callstack c).ips (current_ips e) ≡ some true
      → Current e s (some c) s
  created :
      ((c : ℕ) → c < s.callstack_num → (s.callstack c).ips ≢ current_ips e)
      → Current e s (some s.callstack_num) (add_callstack (current_ips e) s)
  no_memory : Current e s none s

module _ (e : Env) (s : Tracker) (v : IsIndexed s) where
  lookup_found :
      (c : ℕ)
      → hash_search (ips_at s) s.callstack_hash (current_ips e) ≡ some (some c)
      → Current e s (some c) s
  unfolding hash_search
  lookup_found c h =
      let slot = hash_slot (current_ips e) in
      let f = chain_search_found (ips_at s) (current_ips e) (s.callstack_hash slot) c h in
      found c (ground (arith, f.0, v.chained c slot)) f.1

  not_found :
      hash_search (ips_at s) s.callstack_hash (current_ips e) ≡ some none
      → (c : ℕ) → c < s.callstack_num
      → (s.callstack c).ips ≢ current_ips e
  unfolding hash_search
  not_found h c k same =
      let slot = hash_slot (current_ips e) in
      let slots : hash_slot (s.callstack c).ips ≡ slot = ap hash_slot same in
      let m =
        chain_search_missed (ips_at s) (current_ips e) (s.callstack_hash slot) c h
          (ground (arith, v.chained c slot)) in
      let r : memcmp (s.callstack c).ips (current_ips e) ≡ some true =
        rw same (memcmp_refl (current_ips e)) in
      cc

  abbrev Landed : Option ℕ × Tracker → Type 0
  Landed x = Current e s x.0 x.1

  returned :
      (p : Option ℕ)
      → hash_search (ips_at s) s.callstack_hash (current_ips e) ≡ some p
      → Landed (found_or_new e (current_ips e) s p)
  returned (some c) h = lookup_found c h
  returned none h =
      elim e.malloc_callstack
        as (λ b.
          Landed
            (if b then (some s.callstack_num, add_callstack (current_ips e) s) else (none, s))) [
              | true ↦ created (not_found h)
              | false ↦ no_memory
            ]

  -- Where each callstack stands once in its chain, a lookup that returns gives a callstack of the
  -- table whose frames begin with the backtrace, or adds a new one, which it does only if no
  -- callstack has this backtrace, or gives NULL and changes nothing.
  pub callstack_current_lem :
      (r : Option ℕ) (t : Tracker) → callstack_current e s ≡ some (r, t) → Current e s r t
  unfolding callstack_current
  callstack_current_lem r t h =
      elim (Option-cases (hash_search (ips_at s) s.callstack_hash (current_ips e))) [
        | inl q ↦ absurd (none-ne-some (r, t) (rw (q, callstack_current) at h))
        | inr (p, q) ↦
            let same = some-injective _ _ (rw (q, callstack_current) at h) in
            subst Landed same (returned p q)
      ]

  pub created-IsIndexed :
      ((c : ℕ) → c < s.callstack_num → (s.callstack c).ips ≢ current_ips e)
      → IsIndexed (add_callstack (current_ips e) s)
  unfolding hash_add
  created-IsIndexed new = record {
    chained =
        λ c n. ground (arith, v.chained c n, count-cons c s.callstack_num (s.callstack_hash n));
    distinct = λ c d p q same. ground (arith, v.distinct c d, new c, new d);
  }

  there : (p : Option ℕ) → e.malloc_callstack ≡ true → (found_or_new e (current_ips e) s p).0 ≢ none
  there none h = ground arith
  there (some c) h = λ q. cc

  search_total : NoOverrun e s → hash_search (ips_at s) s.callstack_hash (current_ips e) ≢ none
  unfolding hash_search
  search_total short =
      let slot = hash_slot (current_ips e) in
      chain_search_total (ips_at s) (current_ips e) (s.callstack_hash slot)
        (λ c h. short c (ground (arith, v.chained c slot)))

  -- Without an overrun the lookup returns, and NULL only for want of memory.
  pub callstack_current_total :
      NoOverrun e s
      → (r : Option ℕ × Tracker) × (callstack_current e s ≡ some r)
        × (e.malloc_callstack ≡ true → r.0 ≢ none)
  unfolding callstack_current
  callstack_current_total short =
      elim (Option-cases (hash_search (ips_at s) s.callstack_hash (current_ips e))) [
        | inl q ↦ absurd (search_total short q)
        | inr (p, q) ↦ (found_or_new e (current_ips e) s p, rw (q, callstack_current), there p)
      ]
