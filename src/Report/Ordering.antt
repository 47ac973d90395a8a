-- ===== src/Report/Ordering.antt =====
-- The order of the report: callstack_cmp orders by what may leak.
use memleax.Prelude.{◌^◌, ◌-◌, ◌<◌, ◌≤◌, ℕ, List, [], ◌∷◌, ◌≡◌, arith, All, map}
use memleax.State.{Tracker}
use memleax.Memblock.Order.{Ascending}
use memleax.Sort.{Pairwise, Pairwise-all, Agrees, Orders}
use memleax.Report.{may_leak, callstack_cmp}

-- The counters of expiries are ints that do not overflow.
abbrev pub Counts : Tracker → Type 0
Counts s =
    (c : ℕ)
    → ((s.callstack c).free_expired_count ≤ (s.callstack c).expired_count)
      × ((s.callstack c).expired_count < 2 ^ 31)

may_leak_lem :
    (s : Tracker) (c : ℕ)
    → Counts s
    → may_leak (s.callstack c) ≡ (s.callstack c).expired_count - (s.callstack c).free_expired_count
may_leak_lem s c counts = ground (arith, (counts c).0, (counts c).1)

module _ (s : Tracker) (counts : Counts s) where
  small : (c : ℕ) → may_leak (s.callstack c) < 2 ^ 31
  small c = omega (arith, may_leak_lem s c counts, (counts c).1)

  -- The comparison is by the difference, which is the order of what may leak.
  pub cmp-Orders :
      (cs : List ℕ) → Pairwise (Orders (callstack_cmp s) (λ c. may_leak (s.callstack c))) cs
  cmp-Orders = Pairwise-all _ (λ x y. (agrees x y, agrees y x))
    where
      agrees : (x y : ℕ) → Agrees (callstack_cmp s) (λ c. may_leak (s.callstack c)) x y
      agrees x y = (ground (arith, small x, small y), ground (arith, small x, small y))

pub Pairwise-Ascending :
    (key : ℕ → ℕ) (cs : List ℕ) → Pairwise (λ x y. key x ≤ key y) cs → Ascending (map key cs)
Pairwise-Ascending key [] h = tt
Pairwise-Ascending key (x ∷ cs) (first, h) = (later cs first, Pairwise-Ascending key cs h)
  where
    later : (ys : List ℕ) → All (λ y. key x ≤ key y) ys → All (λ m. key x ≤ m) (map key ys)
    later [] h = tt
    later (y ∷ ys) (h, hs) = (h, later ys hs)
