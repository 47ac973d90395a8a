-- ===== src/Memblock/Lookup.antt =====
-- A consistent tracker, and that looking a callstack up keeps it consistent.
use memleax.Prelude.{ℕ, ◌<◌, ◌≡◌, refl, ◌≢◌, inl, inr, Option, none, some, arith, Option-cases}
use memleax.State.{Tracker, Env}
use memleax.Callstack.{callstack_current, current_ips, add_callstack}
use memleax.Callstack.Index.{
  IsIndexed, Current, found, created, no_memory, callstack_current_lem, created-IsIndexed,
}
use memleax.Memblock.Valid.{IsValid}
use memleax.Memblock.Weights.{owned_by, bytes_by, weigh-zero}
use memleax.Memblock.Balance.{IsBalanced}

-- The links, the counters and the table of callstacks agree.
pub record IsConsistent (s : Tracker) : Type 0 where
  pub valid : IsValid s
  pub balanced : IsBalanced s
  pub indexed : IsIndexed s

-- A run ends, with a result that satisfies `P`.
abbrev pub Returns {ℓ} : {A : Type ℓ} → Option A → (A → Type 0) → Type 0
Returns none P = ⊥
Returns (some r) P = P r

pub Returns-imp {ℓ} :
    {A : Type ℓ} (P Q : A → Type 0) (m : Option A)
    → ((r : A) → P r → Q r)
    → Returns m P
    → Returns m Q
Returns-imp P Q none f h = h
Returns-imp P Q (some r) f h = f r h

-- A callstack that is added has no blocks yet.
created-IsConsistent :
    (e : Env) (s : Tracker)
    → IsConsistent s
    → ((c : ℕ) → c < s.callstack_num → (s.callstack c).ips ≢ current_ips e)
    → IsConsistent (add_callstack (current_ips e) s)
created-IsConsistent e s k new = record {
  valid = record {
    linked_active = k.valid.linked_active;
    linked_expire = k.valid.linked_expire;
    hashed = k.valid.hashed;
    owned = λ a mb h. ground (arith, k.valid.owned a mb);
  };
  balanced = record {
    blocks = λ c. ground (
      arith,
      k.balanced.blocks c,
      weigh-zero (owned_by s.callstack_num) s.block no_blocks s.active,
      weigh-zero (owned_by s.callstack_num) s.block no_blocks s.expire,
    );
    bytes = λ c. ground (
      arith,
      k.balanced.bytes c,
      weigh-zero (bytes_by s.callstack_num) s.block no_bytes s.active,
      weigh-zero (bytes_by s.callstack_num) s.block no_bytes s.expire,
    );
    expiries = λ c. ground (
      arith,
      k.balanced.expiries c,
      weigh-zero (owned_by s.callstack_num) s.block no_blocks s.expire,
    );
  };
  indexed = created-IsIndexed e s k.indexed new;
}
  where
    no_blocks : (a : ℕ) → owned_by s.callstack_num (s.block a) ≡ 0
    no_blocks a = elim (Option-cases (s.block a)) [
      | inl h ↦ rw h
      | inr (mb, h) ↦ ground (arith, k.valid.owned a mb h)
    ]

    no_bytes : (a : ℕ) → bytes_by s.callstack_num (s.block a) ≡ 0
    no_bytes a = elim (Option-cases (s.block a)) [
      | inl h ↦ rw h
      | inr (mb, h) ↦ ground (arith, k.valid.owned a mb h)
    ]

-- Looking the callstack up keeps the tracker consistent and the blocks as they are, and the
-- callstack exists.
pub record Looked (s : Tracker) (r : Option ℕ) (t : Tracker) : Type 0 where
  pub consistent : IsConsistent t
  pub blocks : t.block ≡ s.block
  pub exists : (c : ℕ) → r ≡ some c → c < t.callstack_num

pub Current-Looked :
    (e : Env) (s : Tracker) {r : Option ℕ} {t : Tracker}
    → IsConsistent s
    → Current e s r t
    → Looked s r t
Current-Looked e s k (found c known same) = record {
  consistent = k;
  blocks = refl;
  exists = λ d h. ground arith;
}
Current-Looked e s k (created new) = record {
  consistent = created-IsConsistent e s k new;
  blocks = refl;
  exists = λ d h. ground arith;
}
Current-Looked e s k no_memory = record { consistent = k; blocks = refl; exists = λ d h. cc }

pub looked :
    (e : Env) (s : Tracker) (r : Option ℕ × Tracker)
    → IsConsistent s
    → callstack_current e s ≡ some r
    → Looked s r.0 r.1
looked e s (r, t) k h = Current-Looked e s k (callstack_current_lem e s k.indexed r t h)
