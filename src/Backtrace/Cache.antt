-- ===== src/Backtrace/Cache.antt =====
-- The cache of unwind information answers as the query does.
use memleax.Prelude.{
  subst, true, count-cons, slt32, arith, inr, false, inl, ◌==◌, Bool-cases, Option-cases, ltb,
  count, ◌≤◌, length, ◌<◌, ℕ, ◌≡◌, refl, none, some, [], ◌∷◌, ap, ◌∙◌,
}
use memleax.Hash.{hash_search, hash_add, hash_slot, memcmp, chain_search}
use memleax.Hash.Chains.{chain_search_found, chain_search_total, memcmp_covered}
use memleax.Backtrace.{
  Reply, IpInfo, IpCache, info_max, ip_at, cached, reply_answer, cache_miss, find_proc_info,
}

-- Every node of the table has what the query gives for its instruction pointer.
pub record Remembers (query : ℕ → Reply) (c : IpCache) : Type 0 where
  pub known :
      (n p : ℕ)
      → 0 < count p (c.ip_info_hash n)
      → (ii : IpInfo) × (c.ip_info p ≡ some ii) × (ii.reply ≡ query ii.ip)

-- No query gives more unwind information than the buffer holds.
abbrev pub Fitting : (ℕ → Reply) → Type 0
Fitting query = (ip : ℕ) → length (query ip).info.unwind_info ≤ info_max

same_word : (x y : ℕ) → memcmp (x ∷ []) (y ∷ []) ≡ some true → x ≡ y
unfolding memcmp
same_word x y h = ground (arith, h)

module _ (query : ℕ → Reply) (fitting : Fitting query) where
  cached_lem :
      (ii : IpInfo) (ip : ℕ)
      → ii.reply ≡ query ii.ip
      → ii.ip ≡ ip
      → cached (some ii) ≡ some (reply_answer (query ip))
  cached_lem ii ip e same =
      let reply : ii.reply ≡ query ip = e ∙ ap query same in
      let fits : ltb info_max (length (query ip).info.unwind_info) ≡ false =
        ground (arith, fitting ip) in
      elim (Bool-cases (slt32 (query ip).ret 0)) [
        | inl failed ↦ rw (reply, failed) refl
        | inr found ↦ rw (reply, found, fits) refl
      ]

  pub cache_miss-Remembers :
      (c : IpCache) (ip p : ℕ)
      → Remembers query c
      → Remembers query ((cache_miss ip (query ip) p c).1)
  unfolding hash_add
  cache_miss-Remembers c ip p r = record {
    known = λ n q h. elim (Bool-cases (p == q)) [
      | inl new ↦ (record { ip = ip; reply = query ip }, rw new refl, refl)
      | inr old ↦
          let (ii, e, reply) =
            r.known n q
              (ground (arith, h, old, count-cons q p (c.ip_info_hash (hash_slot (ip ∷ []))))) in
          (ii, rw old e, reply)
    ];
  }

  -- Where the cache holds what the query gave, no unwind information is longer than the buffer,
  -- and there is memory for a new struct, a query through the cache does not fault and answers
  -- with the query's own code and information, and the cache then still holds what the query
  -- gives.
  pub find_proc_info_lem :
      (c : IpCache) (ip p : ℕ)
      → Remembers query c
      → (c' : IpCache) × (find_proc_info query (some p) ip c ≡ some (reply_answer (query ip), c'))
        × Remembers query c'
  unfolding find_proc_info hash_search
  find_proc_info_lem c ip p r =
      let chain = c.ip_info_hash (hash_slot (ip ∷ [])) in
      elim (Option-cases (chain_search (ip_at c) (ip ∷ []) chain)) [
        | inl overrun ↦ absurd (
            chain_search_total (ip_at c) (ip ∷ []) chain
              (λ q known.
                let (ii, at, reply) = r.known (hash_slot (ip ∷ [])) q known in
                rw (ip_at, at) (memcmp_covered (ii.ip ∷ []) (ip ∷ []) (omega arith)))
              overrun)
        | inr (none, missed) ↦ (
          (cache_miss ip (query ip) p c).1,
          rw (find_proc_info, hash_search, missed) refl,
          cache_miss-Remembers c ip p r,
        )
        | inr (some q, found) ↦
            let (known, equal) = chain_search_found (ip_at c) (ip ∷ []) chain q found in
            let (ii, at, reply) = r.known (hash_slot (ip ∷ [])) q known in
            let same : ii.ip ≡ ip = same_word ii.ip ip (
              subst (λ o. memcmp (elim o [ none ↦ [] | some x ↦ x.ip ∷ [] ]) (ip ∷ []) ≡ some true)
                at equal) in
            (
              c,
              rw (find_proc_info, hash_search, found)
                  (ap (λ o. elim o [ none ↦ none | some answer ↦ some (answer, c) ])
                    (ap cached at ∙ cached_lem ii ip reply same)),
              r,
            )
      ]
