-- ===== src/Memblock/Start.antt =====
-- The tracker is consistent and its lists are in order when the program starts.
use memleax.Prelude.{ℕ, ◌^◌, ◌<◌, refl, [], arith, count-nil}
use memleax.State.{initial}
use memleax.Memblock.Weights.{weigh-zero, owned_by, bytes_by}
use memleax.Memblock.Lookup.{IsConsistent}
use memleax.Memblock.Order.{IsOrdered, creates}

pub initial-IsConsistent : IsConsistent initial
unfolding initial
initial-IsConsistent = record {
  valid = record {
    linked_active = count-nil;
    linked_expire = count-nil;
    hashed = λ a n. count-nil a;
    owned = λ a mb h. cc;
  };
  balanced = record {
    blocks = λ c. ground (arith, weigh-zero (owned_by c) initial.block (λ a. refl) []);
    bytes = λ c. ground (arith, weigh-zero (bytes_by c) initial.block (λ a. refl) []);
    expiries = λ c. ground (arith, weigh-zero (owned_by c) initial.block (λ a. refl) []);
  };
  indexed = record {
    chained = λ c n. rw count-nil (ground arith);
    distinct = λ c d p q same. absurd (omega arith);
  };
}

pub initial-IsOrdered : (now : ℕ) → now < 2 ^ 63 → IsOrdered now initial
unfolding initial creates
initial-IsOrdered now h = record { ascending = tt; past = tt; representable = h }
