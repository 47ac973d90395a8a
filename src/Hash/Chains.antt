-- ===== src/Hash/Chains.antt =====
-- What a search in a chain of hash.h finds.
use memleax.Prelude.{
  ℕ, ◌≤◌, ◌<◌, ◌≡◌, refl, true, false, none, some, List, [], ◌∷◌, ◌++◌, ◌≢◌, arith, length, count,
  count-cons, count-nil,
}
use memleax.Hash.{memcmp, chain_search}

pub memcmp_refl : (key : List ℕ) → memcmp key key ≡ some true
unfolding memcmp
memcmp_refl [] = refl
memcmp_refl (k ∷ ks) = ground (arith, memcmp_refl ks)

-- An object that is as long as the key is never overrun.
pub memcmp_covered : (ws ks : List ℕ) → length ks ≤ length ws → memcmp ws ks ≢ none
unfolding memcmp
memcmp_covered ws [] h = λ e. cc
memcmp_covered [] (k ∷ ks) h = absurd (omega arith)
memcmp_covered (w ∷ ws) (k ∷ ks) h = ground (arith, memcmp_covered ws ks (omega arith))

-- An object that is a proper prefix of the key is overrun.
pub memcmp_overrun : (ws rest : List ℕ) (k : ℕ) → memcmp ws (ws ++ k ∷ rest) ≡ none
unfolding memcmp
memcmp_overrun [] rest k = refl
memcmp_overrun (w ∷ ws) rest k = ground (arith, memcmp_overrun ws rest k)

-- An object that begins with the key compares equal, whatever follows.
pub memcmp_prefix : (ks rest : List ℕ) → memcmp (ks ++ rest) ks ≡ some true
unfolding memcmp
memcmp_prefix [] [] = refl
memcmp_prefix [] (r ∷ rest) = refl
memcmp_prefix (k ∷ ks) rest = ground (arith, memcmp_prefix ks rest)

module _ (behind : ℕ → List ℕ) (key : List ℕ) where
  -- A node that is found stands in the chain, and its words begin with the key.
  pub chain_search_found :
      (ps : List ℕ) (p : ℕ)
      → chain_search behind key ps ≡ some (some p)
      → (0 < count p ps) × (memcmp (behind p) key ≡ some true)
  unfolding chain_search
  chain_search_found [] p h = cc
  chain_search_found (q ∷ ps) p h =
      ground (arith, chain_search_found ps p, count-cons p q ps, memcmp (behind q) key)

  -- After NULL no node of the chain begins with the key.
  pub chain_search_missed :
      (ps : List ℕ) (p : ℕ)
      → chain_search behind key ps ≡ some none
      → 0 < count p ps
      → memcmp (behind p) key ≡ some false
  unfolding chain_search
  chain_search_missed [] p h c = absurd (omega (arith, count-nil p))
  chain_search_missed (q ∷ ps) p h c = ground (arith, chain_search_missed ps p, count-cons p q ps)

  -- The search ends without an overrun if no node of the chain is shorter than the key.
  pub chain_search_total :
      (ps : List ℕ)
      → ((p : ℕ) → 0 < count p ps → memcmp (behind p) key ≢ none)
      → chain_search behind key ps ≢ none
  unfolding chain_search
  chain_search_total [] h = λ e. cc
  chain_search_total (q ∷ ps) h = ground (
    arith,
    h q,
    count-cons q q ps,
    chain_search_total ps (λ p c. h p (omega (arith, count-cons p q ps))),
  )
