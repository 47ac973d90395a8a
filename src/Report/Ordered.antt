-- ===== src/Report/Ordered.antt =====
-- The report of callstack.c as a whole: what it lists, in which order, and that it ends without a fault.
use memleax.Prelude.{
  sym, subst, ◌∙◌, ap, inr, ◌&&◌, ◌==◌, if◌then◌else◌, ◌^◌, inl, ltb, ◌≤◌, ℕ, true, some, List, [],
  ◌∷◌, ◌≡◌, refl, arith, length, count, map, Option-cases, Bool-cases,
}
use memleax.State.{Tracker}
use memleax.Callstack.Index.{IsIndexed, SameStacks-IsIndexed}
use memleax.Memblock.{memblock_count}
use memleax.Memblock.Lookup.{IsConsistent, Returns}
use memleax.Memblock.Order.{Ascending}
use memleax.Array.{Array, array_of}
use memleax.Array.Growth.{Holds, array_of-Holds, array_sort-items}
use memleax.Report.{
  hash_for_each, statistic, Names, Frame, frame_of, printed, is_main, callstack_print, may_leak,
  callstack_cmp, Statistic, show_loop, report_array, callstack_report,
}
use memleax.Report.Frames.{Few, frame_of_total}
use memleax.Report.Listed.{
  Kept, memblock_count-Kept, table_nodes, length-le, leaking, count-leaking, push_loop-Holds,
}
use memleax.Report.Ordering.{Counts, cmp-Orders, Pairwise-Ascending}
use memleax.Sort.{Qsort, IsSort, length-Permutes, count-Permutes}

module _ (names : Names) (few : Few names) where
  -- No backtrace makes the printing fault.
  callstack_print_total : (ips : List ℕ) → (fs : List Frame) × (callstack_print names ips ≡ some fs)
  unfolding callstack_print
  callstack_print_total [] = ([], refl)
  callstack_print_total (address ∷ rest) = elim (Bool-cases (address == 0)) [
    | inl z ↦ ([], rw (callstack_print, z) refl)
    | inr nonzero ↦ elim (Option-cases (frame_of names address)) [
      | inl m ↦ absurd (frame_of_total names few address m)
      | inr (f, m) ↦ elim (Bool-cases (is_main f)) [
        | inl last ↦ (f ∷ [], rw (callstack_print, nonzero, m, printed, last) refl)
        | inr more ↦
            let (fs, e) = callstack_print_total rest in
            (f ∷ fs, rw (callstack_print, nonzero, m, printed, more, e) refl)
      ]
    ]
  ]

  show_loop_lem :
      (s : Tracker) (cs : List ℕ)
      → (r : List Statistic) × (show_loop names s cs ≡ some r)
        × (map (λ (st : Statistic). st.node) r ≡ cs)
        × (map (λ (st : Statistic). st.leak_count) r ≡ map (λ c. may_leak (s.callstack c)) cs)
  unfolding show_loop
  show_loop_lem s [] = ([], refl, refl, refl)
  show_loop_lem s (c ∷ cs) =
      let (fs, e) = callstack_print_total (s.callstack c).ips in
      let (r, e', nodes, counts) = show_loop_lem s cs in
      (
        statistic c (s.callstack c) fs ∷ r,
        rw (show_loop, e, e') refl,
        ap (λ l. c ∷ l) nodes,
        ap (λ l. may_leak (s.callstack c) ∷ l) counts,
      )

Kept-Counts : (s t : Tracker) → Kept s t → Counts s → Counts t
Kept-Counts s t k counts =
    λ c. ground (arith, k.expired c, k.free_expired c, (counts c).0, (counts c).1)

-- What a report lists: each callstack of the table whose blocks expired more often than they were freed
-- since, once, and in ascending order of the difference.
pub record Lists (s : Tracker) (r : List Statistic) : Type 0 where
  pub once :
      (c : ℕ)
      → count c (map (λ (st : Statistic). st.node) r) ≡ (
          if ltb c s.callstack_num
            && ltb (s.callstack c).free_expired_count (s.callstack c).expired_count
          then 1
          else 0)
  pub order : Ascending (map (λ (st : Statistic). st.leak_count) r)

no_items : (xs : List ℕ) → length xs ≡ 0 → xs ≡ []
no_items [] e = refl
no_items (x ∷ xs) e = absurd (omega (arith, e))

module _ (qsort : Qsort ℕ) (sorts : IsSort qsort) (names : Names) (few : Few names) where
  report_array-Lists :
      (t : Tracker) (nodes : List ℕ) (a : Array ℕ)
      → Counts t
      → Holds a (leaking t nodes)
      → (r : List Statistic) × (report_array qsort names t a ≡ some r)
        × ((c : ℕ) → count c (map (λ (st : Statistic). st.node) r) ≡ count c (leaking t nodes))
        × Ascending (map (λ (st : Statistic). st.leak_count) r)
  report_array-Lists t nodes a counts h = elim (Bool-cases (a.item_num == 0)) [
    | inl z ↦ (
      [],
      rw (report_array, z) refl,
      (λ c. ap (count c) (sym (no_items (leaking t nodes) (ground (arith, z, h.num))))),
      tt,
    )
    | inr some_item ↦
        let cmp = callstack_cmp t in
        let key : ℕ → ℕ = λ c. may_leak (t.callstack c) in
        let order = cmp-Orders t counts (leaking t nodes) in
        let same = sorts.permutes cmp key (leaking t nodes) order in
        let sorted = qsort cmp (leaking t nodes) in
        let (r, e, e', e'') = show_loop_lem names few t sorted in
        (
          r,
          rw (report_array, some_item)
              (ap (show_loop names t)
                  (array_sort-items qsort cmp a (leaking t nodes) h (length-Permutes same))
                ∙ e),
          (λ c. ap (count c) e' ∙ count-Permutes c same),
          subst Ascending (sym e'')
              (Pairwise-Ascending key sorted (sorts.sorted cmp key (leaking t nodes) order)),
        )
  ]

  -- The tracker is consistent, its counters of expiries do not overflow, it has at most 2 ^ 30
  -- callstacks, the allocations succeed, no table of names has more than 2 ^ 30 entries, and qsort
  -- sorts. Then the report ends, and lists each callstack of the table whose blocks expired
  -- more often than expired blocks of it were freed, exactly once and no other, in ascending order
  -- of the number that may leak.
  pub callstack_report-Lists :
      (now : ℕ) (s : Tracker)
      → IsConsistent s
      → s.callstack_num ≤ 2 ^ 30
      → Counts s
      → (r : List Statistic) × (callstack_report qsort (λ n. true) now names s ≡ some r) × Lists s r
  unfolding callstack_report
  callstack_report-Lists now s k short counts = elim (Option-cases (memblock_count now s)) [
    | inl m ↦ absurd (subst (λ o. Returns o (Kept s)) m (memblock_count-Kept now s k.valid))
    | inr (t, m) ↦
        let kept : Kept s t =
          subst (λ o. Returns o (Kept s)) m (memblock_count-Kept now s k.valid) in
        let nodes = hash_for_each t.callstack_hash in
        let indexed : IsIndexed t = SameStacks-IsIndexed s t kept.stacks k.indexed in
        let fits : length nodes ≤ t.callstack_num =
          length-le t.callstack_num nodes (λ c. omega (arith, table_nodes t c indexed)) in
        let (a, e, h) =
          push_loop-Holds t nodes (array_of 1000) [] (array_of-Holds 1000 (omega arith))
            (omega (arith, fits, short, kept.stacks.same_num)) in
        let (r, e', same, order) = report_array-Lists t nodes a (Kept-Counts s t kept counts) h in
        (
          r,
          rw (callstack_report, m, e) e',
          record {
            once = λ c. ground (
              arith,
              same c,
              count-leaking t c nodes,
              table_nodes t c indexed,
              kept.stacks.same_num,
              kept.expired c,
              kept.free_expired c,
              counts c,
            );
            order = order;
          },
        )
  ]
