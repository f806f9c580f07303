-- ===== src/Tasks/SampleSortTask/Threads/Ends.antt =====
-- The end of a sample sort: whole runs, and the arrays that they leave.
use mathlib.Core.Path.{subst}
use mathlib.Core.List.{Perm, Permᴰ, flatten}
use francois_gingras_master.Common.{
  ℕ, suc, ◌+◌, ◌≤◌, ◌≡◌, inl, inr, refl, sym, ap, ◌∙◌, some, List, [], ◌∷◌, map, length, get_elem?,
  done, ℤ, arith, Bool-cases, ◌⊎◌, ◌++◌, append_assoc,
}
use francois_gingras_master.Tasks.Qsort.{IsModerate, IsSorted}
use francois_gingras_master.Tasks.BucketTask.Partition.Order.{Each}
use francois_gingras_master.Tasks.SampleSortTask.{SubArrays, bucket_output, outputs}
use francois_gingras_master.Tasks.SampleSortTask.Correct.{last_round}
use francois_gingras_master.Tasks.SampleSortTask.Correct.Rounds.{replies_of}
use francois_gingras_master.Tasks.SampleSortTask.RoundOne.{part_of}
use francois_gingras_master.Tasks.SampleSortTask.Threads.{
  Machine, BucketThread, Threads, Turn, bucket, collects, step, run,
}
use francois_gingras_master.Tasks.SampleSortTask.Threads.Plan.{RootInv, early, late, Inv, RootAt}
use francois_gingras_master.Tasks.SampleSortTask.Threads.Setting.{Plan, Knows}
use francois_gingras_master.Tasks.SampleSortTask.Threads.Stages.{
  ended, ending, pick_where, has_ended, At,
}
use francois_gingras_master.Tasks.SampleSortTask.Threads.Picks.{pick_where_all, steps_left}
use francois_gingras_master.Tasks.SampleSortTask.Threads.Change.{Goes, measure}
use francois_gingras_master.Tasks.SampleSortTask.Threads.Replied.{all_replied}
use francois_gingras_master.Tasks.SampleSortTask.Threads.Builds.{replies_of-map}
use francois_gingras_master.Tasks.SampleSortTask.Threads.Races.{
  races, ComesToRace, race_now, race_before,
}
use francois_gingras_master.Tasks.SampleSortTask.Threads.Turns.{IsTurn, can_go}
use francois_gingras_master.Tasks.SampleSortTask.Threads.Runs.{
  Has, IsRound, AreRounds, length-nothing, run-append, At-nothing, run_goes,
}

-- The array that a bucket has in the end.
abbrev pub final_values : BucketThread → List ℤ
final_values t = t.state.final_data_values

module _ (m : Machine) (P : Plan) where
  -- When the root has counted all `done` messages, every bucket has ended.
  all_ended :
      (c : Threads) (inv : Inv m P c)
      → inv.stage ≡ ending 0
      → RootInv m P
          (ending 0)
          (inv.rs)
          c.heap
          c.root.state
          (c.shared.segments P.root_id)
          (length (pick_where has_ended c.buckets P.refs))
      → (length (inv.rs) ≡ suc (P.k))
        × ((i : ℕ) (t : BucketThread) → get_elem? c.buckets i ≡ some t → t.todo ≡ [])
  all_ended c inv at (early got there used refer tagged bears bound g) = absurd g
  all_ended c inv at (late got there used full refer arr dones bears bound f) = (
    full,
    λ i t e. length-nothing t.todo (
        (pick_where_all has_ended c.buckets P.refs (inv.count ∙ sym (P.referenced))
            (omega (arith, P.referenced))).1
          i t e),
  )

  nothing_left :
      (ts : List BucketThread)
      → ((i : ℕ) (t : BucketThread) → get_elem? ts i ≡ some t → t.todo ≡ [])
      → steps_left ts ≡ 0
  unfolding steps_left
  nothing_left [] h = refl
  nothing_left (t ∷ ts) h =
      omega (arith, ap length (h 0 t refl), nothing_left ts (λ i u e. h (suc i) u e))

  measure_ended : (c : Threads) (inv : Inv m P c) → inv.stage ≡ ending 0 → measure c ≡ 0
  unfolding collects
  measure_ended c inv at =
      let ended_all = all_ended c inv at (
        subst
          (λ s.
            RootInv m P s (inv.rs) c.heap c.root.state (c.shared.segments P.root_id)
              (length (pick_where has_ended c.buckets P.refs)))
          at (inv.gathers)) in
      let rooted : c.root.todo ≡ [] =
        nothing (subst (λ s. RootAt m P s c.root.todo) at (inv.todo_at)) in
      omega (arith, ap length rooted, nothing_left c.buckets (ended_all.1))
    where
      nothing : RootAt m P (ending 0) c.root.todo → c.root.todo ≡ []
      nothing (inl e) = e
      nothing (inr (after, e, f)) = absurd (cc)

  -- The turns succeed, and the root has ended.
  abbrev pub ComesToEnd : List Turn → Threads → Type 0
  ComesToEnd us c =
      (c' : Threads) × (run m us c ≡ done c') × ((inv' : Inv m P c') × (inv'.stage ≡ ending 0))

  after_round :
      (us vs : List Turn) (c c1 : Threads)
      → run m us c ≡ done c1
      → ComesToEnd vs c1 ⊎ ComesToRace m vs c1
      → ComesToEnd (us ++ vs) c ⊎ ComesToRace m (us ++ vs) c
  after_round us vs c c1 e (inl (c', f, over)) = inl (c', run-append m us vs c ∙ rw e f, over)
  after_round us vs c c1 e (inr (before, after, c', same, r, racing)) = inr (
    us ++ before,
    after,
    c',
    ap (λ l. us ++ l) same ∙ sym (append_assoc us before after),
    run-append m us before c ∙ rw e r,
    racing,
  )

  -- A schedule of as many rounds as there are steps left comes to the end, or to a race.
  pub rounds_end :
      (rounds : List (List Turn)) (c : Threads)
      → AreRounds (P.k) rounds
      → Inv m P c
      → measure c ≤ length rounds
      → ComesToEnd (flatten rounds) c ⊎ ComesToRace m (flatten rounds) c
  unfolding flatten run
  rounds_end [] c are inv h = elim (Bool-cases (races c)) [
    | inl race ↦ inr (race_now m [] c race)
    | inr safe ↦ elim (can_go m P c inv safe) [
      | inl (t, turn, (c', e, inv', less)) ↦ absurd (omega arith)
      | inr over ↦ inl (c, refl, over)
    ]
  ]
  rounds_end (us ∷ rounds) c (round, are) inv h = elim (Bool-cases (races c)) [
    | inl race ↦ inr (race_now m (us ++ flatten rounds) c race)
    | inr safe ↦ elim (run_goes m P us c inv) [
      | inr race ↦ inr (race_before m us (flatten rounds) c race)
      | inl (c1, e, inv1, o) ↦
          let left : measure c1 ≤ length rounds = elim o [
            | inl (still, stay) ↦ elim (can_go m P c inv safe) [
              | inl (t, turn, goes) ↦ absurd (idle us round c stay t turn goes)
              | inr (inv', over) ↦ omega (arith, ap measure still, measure_ended c inv' over)
            ]
            | inr less ↦ omega arith
          ] in
          after_round us (flatten rounds) c c1 e (rounds_end rounds c1 are inv1 left)
    ]
  ]
    where
      has_turn : (us : List Turn) → IsRound (P.k) us → (t : Turn) → IsTurn m P t → Has t us
      has_turn us r Turn.root turn = r.0
      has_turn us r (bucket i) turn = r.1 i turn

      idle :
          (us : List Turn)
          → IsRound (P.k) us
          → (c : Threads) → ((t : Turn) → Has t us → step m t c ≡ done c)
          → (t : Turn) → IsTurn m P t
          → Goes m P c (step m t c)
          → ⊥
      idle us r c stay t turn (c', e, inv', less) =
          let same : done c ≡ done c' = sym (stay t (has_turn us r t turn)) ∙ e in
          let is : c ≡ c' = cc in absurd (omega (arith, ap measure is))

  outputs_threads :
      (rs : List SubArrays) (ts : List BucketThread) (ki : ℕ)
      → ((i : ℕ) (t : BucketThread)
          → get_elem? ts i ≡ some t
          → bucket_output m.lib (ki + i) rs ≡ done (final_values t))
      → outputs m.lib ki (length ts) rs ≡ done (map final_values ts)
  unfolding outputs
  outputs_threads rs [] ki h = refl
  outputs_threads rs (t ∷ ts) ki h =
      let here : ki + 0 ≡ ki = omega arith in
      let first : bucket_output m.lib ki rs ≡ done (final_values t) =
        subst (λ j. bucket_output m.lib j rs ≡ done (final_values t)) here (h 0 t refl) in
      let later = outputs_threads rs ts (ki + 1) (λ i u e.
        let shift : ki + suc i ≡ ki + 1 + i = omega arith in
        subst (λ j. bucket_output m.lib j rs ≡ done (final_values u)) shift (h (suc i) u e)) in
      rw (first, later) refl

  -- The array of every bucket is the sorted column of the replies.
  output_of :
      (c : Threads) (inv : Inv m P c) (i : ℕ) (t : BucketThread)
      → get_elem? c.buckets i ≡ some t
      → t.todo ≡ []
      → bucket_output m.lib i (inv.rs) ≡ done (final_values t)
  unfolding bucket_output
  output_of c inv i t e over =
      let b = inv.each i t e in
      let at : b.at ≡ ended = At-nothing (b.at) (subst (At (b.at)) over (b.todo_at)) in
      let (out, (cs, vs, col, reb), final) =
        subst (λ s. Knows m P s (inv.rs) i (b.ref) t.state) at (b.knows) in
      rw (col, reb) (ap done (sym final))

  pub ends_in_order :
      (c : Threads) (inv : Inv m P c)
      → inv.stage ≡ ending 0
      → Each IsModerate (flatten (map (part_of P.cells) P.refs))
      → (let finals = map final_values c.buckets in
          (length finals ≡ suc (P.k))
          × IsSorted (flatten finals)
          × Perm (flatten finals) (flatten (map (part_of P.cells) P.refs)))
  ends_in_order c inv at moderate =
      let (full, over) = all_ended c inv at (
        subst
          (λ s.
            RootInv m P s (inv.rs) c.heap c.root.state (c.shared.segments P.root_id)
              (length (pick_where has_ended c.buckets P.refs)))
          at (inv.gathers)) in
      let ps = map (part_of P.cells) P.refs in
      let same = replies_of-map m P P.refs in
      let perm : Permᴰ (replies_of P.first P.rest ps) (inv.rs) =
        subst (λ l. Permᴰ l (inv.rs)) ((all_replied m P c inv full).0 ∙ sym same) (inv.arrived) in
      let (finals, run_out, count, sorted, kept) =
        last_round m.lib P.first P.rest ps (inv.rs) perm moderate in
      let zero_first : (i : ℕ) (t : BucketThread)
          → get_elem? c.buckets i ≡ some t
          → bucket_output m.lib (0 + i) (inv.rs) ≡ done (final_values t) =
        λ i t e.
          let plain : i ≡ 0 + i = omega arith in
          subst (λ j. bucket_output m.lib j (inv.rs) ≡ done (final_values t)) plain
            (output_of c inv i t e (over i t e)) in
      let mine = outputs_threads (inv.rs) c.buckets 0 zero_first in
      let many : length c.buckets ≡ suc (length (P.rest)) = inv.count ∙ ap suc (sym (P.splits)) in
      let agree : done (map final_values c.buckets) ≡ done finals =
        sym mine ∙ ap (λ n. outputs m.lib 0 n (inv.rs)) many ∙ run_out in
      let is : finals ≡ map final_values c.buckets = cc in
      (
        ap length (sym is) ∙ count ∙ ap suc (P.splits),
        subst (λ l. IsSorted (flatten l)) is sorted,
        subst (λ l. Perm (flatten l) (flatten ps)) is kept,
      )
