-- ===== src/Callstack/Alias.antt =====
-- Where the length of a stored backtrace matters: `hash_search` compares as many words as the key
-- has, whatever the length of the callstack that it compares with.
use memleax.Prelude.{ℕ, ◌≡◌, Bool, true, false, Option, none, some, List, ◌∷◌, ◌++◌}
use memleax.Hash.{hash_slot, hash_search, chain_search, memcmp}
use memleax.Hash.Chains.{memcmp_overrun, memcmp_prefix}
use memleax.State.{Tracker, Env}
use memleax.Callstack.{ips_at, current_ips, callstack_current}

module _ (e : Env) (s : Tracker) (c : ℕ) (others : List ℕ) where
  first_decides :
      (verdict : Option Bool)
      → s.callstack_hash (hash_slot (current_ips e)) ≡ c ∷ others
      → memcmp (s.callstack c).ips (current_ips e) ≡ verdict
      → hash_search (ips_at s) s.callstack_hash (current_ips e) ≡ elim verdict [
        | none ↦ none
        | some true ↦ some (some c)
        | some false ↦ chain_search (ips_at s) (current_ips e) others
      ]
  unfolding hash_search chain_search
  first_decides verdict first h = rw (first, chain_search, h)

  -- A callstack that stands first in the chain and is a proper prefix of the current backtrace is
  -- compared past its end.
  pub callstack_current_overrun :
      (k : ℕ) (rest : List ℕ)
      → current_ips e ≡ (s.callstack c).ips ++ k ∷ rest
      → s.callstack_hash (hash_slot (current_ips e)) ≡ c ∷ others
      → callstack_current e s ≡ none
  unfolding callstack_current
  callstack_current_overrun k rest same first =
      let over : memcmp (s.callstack c).ips (current_ips e) ≡ none =
        rw same (memcmp_overrun (s.callstack c).ips rest k) in
      rw (first_decides none first over, callstack_current)

  -- A longer callstack that stands first in the chain and begins with the current backtrace is
  -- taken for it.
  pub callstack_current_longer :
      (rest : List ℕ)
      → (s.callstack c).ips ≡ current_ips e ++ rest
      → s.callstack_hash (hash_slot (current_ips e)) ≡ c ∷ others
      → callstack_current e s ≡ some (some c, s)
  unfolding callstack_current
  callstack_current_longer rest same first =
      let hit : memcmp (s.callstack c).ips (current_ips e) ≡ some true =
        rw same (memcmp_prefix (current_ips e) rest) in
      rw (first_decides (some true) first hit, callstack_current)
