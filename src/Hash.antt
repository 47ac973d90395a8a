-- ===== src/Hash.antt =====
-- hash.h: chained hash tables over keys of machine words. A table is the function from its slots
-- to their chains, a node is the address of the object that holds it, and the words behind a node
-- are those that `node + 1` points to, up to the end of the object.
pub mod Chains
use memleax.Prelude.{
  ℕ, ◌+◌, ◌/◌, ◌%◌, ◌^◌, Bool, true, false, Option, none, some, List, [], ◌∷◌, bit_xor, ◌==◌,
  update, erase,
}

abbrev pub hash_size : ℕ
hash_size = 29989

abbrev pub Table : Type 0
Table = ℕ → List ℕ

-- The `uint32_t` words of a key of 64-bit words, on a little-endian machine.
unfoldable pub key_words : List ℕ → List ℕ
key_words [] = []
key_words (w ∷ ws) = (w % 2 ^ 32) ∷ (w / 2 ^ 32 % 2 ^ 32) ∷ key_words ws

unfoldable pub xor_words : ℕ → List ℕ → ℕ
xor_words n [] = n
xor_words n (p ∷ ps) = xor_words (bit_xor n p) ps

unfoldable pub hash_slot : List ℕ → ℕ
unfolding key_words xor_words
hash_slot key = xor_words 0 (key_words key) % hash_size

-- `hlist_add_head` on the chain of the slot
unfoldable pub hash_add : Table → ℕ → List ℕ → Table
hash_add hash node key = update hash (hash_slot key) (node ∷ hash (hash_slot key))

-- `hlist_del` unlinks the node from the chain that it stands in
unfoldable pub hash_delete : Table → ℕ → Table
hash_delete hash node n = erase node (hash n)

-- `memcmp(p + 1, vkey, len) == 0`. `none`: the comparison runs past the end of the object.
unfoldable pub memcmp : List ℕ → List ℕ → Option Bool
memcmp stored [] = some true
memcmp [] (k ∷ ks) = none
memcmp (w ∷ ws) (k ∷ ks) = elim (w == k) [ true ↦ memcmp ws ks | false ↦ some false ]

-- The loop of `hash_search` over one chain; `none` as in `memcmp`, `some none` for NULL.
unfoldable pub chain_search : (ℕ → List ℕ) → List ℕ → List ℕ → Option (Option ℕ)
chain_search behind key [] = some none
chain_search behind key (p ∷ ps) = elim (memcmp (behind p) key) [
  | none ↦ none
  | some true ↦ some (some p)
  | some false ↦ chain_search behind key ps
]

unfoldable pub hash_search : (ℕ → List ℕ) → Table → List ℕ → Option (Option ℕ)
hash_search behind hash key = chain_search behind key (hash (hash_slot key))
