-- ===== src/Memblock/Search.antt =====
-- `memblock_search`: the block of a pointer.
use memleax.Prelude.{
  ℕ, ◌<◌, ◌≡◌, ap, ◌≢◌, Option, none, some, [], ◌∷◌, arith, count, Option-cases, inl, inr,
}
use memleax.Hash.{hash_slot, hash_add, hash_search, memcmp, chain_search}
use memleax.Hash.Chains.{chain_search_found, chain_search_missed, chain_search_total}
use memleax.State.{Memblock, Tracker, Env}
use memleax.Memblock.{memblock_search, pointer_at, link_block}
use memleax.Memblock.Valid.{IsValid}
use memleax.Memblock.Lookup.{Returns}

-- What the result of a search says of the live blocks.
abbrev pub Finds : ℕ → Tracker → Option ℕ → Type 0
Finds pointer s none = (a : ℕ) (mb : Memblock) → s.block a ≡ some mb → mb.pointer ≢ pointer
Finds pointer s (some a) = (mb : Memblock) × (s.block a ≡ some mb) × (mb.pointer ≡ pointer)

module _ (pointer : ℕ) (s : Tracker) (v : IsValid s) where
  slot : ℕ
  slot = hash_slot (pointer ∷ [])

  in_slot : (a : ℕ) → 0 < count a (s.memblock_hash slot) → (mb : Memblock) × (s.block a ≡ some mb)
  in_slot a h = elim (Option-cases (s.block a)) [
    | inl m ↦ absurd (ground (arith, v.hashed a slot))
    | inr found ↦ found
  ]

  no_overrun :
      (a : ℕ) → 0 < count a (s.memblock_hash slot) → memcmp (pointer_at s a) (pointer ∷ []) ≢ none
  unfolding pointer_at memcmp
  no_overrun a h = let (mb, m) = in_slot a h in ground arith

  missed :
      chain_search (pointer_at s) (pointer ∷ []) (s.memblock_hash slot) ≡ some none
      → Finds pointer s none
  unfolding pointer_at memcmp slot
  missed h a mb m e =
      let here : hash_slot (mb.pointer ∷ []) ≡ hash_slot (pointer ∷ []) =
        ap (λ p. hash_slot (p ∷ [])) e in
      let there = chain_search_missed (pointer_at s) (pointer ∷ []) (s.memblock_hash slot) a h in
      ground (arith, v.hashed a slot, there)

  hit :
      (a : ℕ)
      → chain_search (pointer_at s) (pointer ∷ []) (s.memblock_hash slot) ≡ some (some a)
      → Finds pointer s (some a)
  unfolding pointer_at memcmp
  hit a h =
      let f = chain_search_found (pointer_at s) (pointer ∷ []) (s.memblock_hash slot) a h in
      let (mb, m) = in_slot a f.0 in (mb, m, ground (arith, f.1))

  finds :
      (r : Option ℕ)
      → chain_search (pointer_at s) (pointer ∷ []) (s.memblock_hash slot) ≡ some r
      → Finds pointer s r
  finds none h = missed h
  finds (some a) h = hit a h

  -- In a tracker whose links are valid a search returns, with a live block of that pointer, or
  -- with NULL if there is none.
  pub memblock_search-Finds : Returns (memblock_search pointer s) (Finds pointer s)
  unfolding memblock_search hash_search slot
  memblock_search-Finds =
      elim (Option-cases (chain_search (pointer_at s) (pointer ∷ []) (s.memblock_hash slot))) [
        | inl h ↦ absurd (chain_search_total (pointer_at s) (pointer ∷ []) _ no_overrun h)
        | inr (r, h) ↦ rw h (finds r h)
      ]

-- After an allocation the search for its pointer finds the new block, also where an older block
-- with that pointer was never freed.
pub memblock_search-link :
    (e : Env) (a c pointer size : ℕ) (s : Tracker)
    → memblock_search pointer (link_block e a c pointer size s) ≡ some (some a)
unfolding memblock_search hash_search hash_add chain_search memcmp
memblock_search-link e a c pointer size s = ground arith
