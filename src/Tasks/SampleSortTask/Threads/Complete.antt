-- ===== src/Tasks/SampleSortTask/Threads/Complete.antt =====
-- The whole sample sort, from the draw of the samples to the sorted arrays, for every schedule.
use mathlib.Core.Path.{subst}
use mathlib.Core.List.{Perm, flatten}
use francois_gingras_master.Common.{
  length-map, ℕ, zero, suc, ◌+◌, ◌*◌, ◌≤◌, ◌<◌, ◌≡◌, ◌≢◌, ◌⊎◌, inl, inr, refl, sym, ap, ◌∙◌, some,
  ℤ, pos, List, [], ◌∷◌, map, length, get_elem?, done, arith,
}
use francois_gingras_master.Messages.Header.{Heap}
use francois_gingras_master.System.{Shared, Process, max_task}
use francois_gingras_master.System.Delivery.{IsMapped}
use francois_gingras_master.System.Delivery.Lane.{Bears}
use francois_gingras_master.Tasks.Qsort.{IsModerate, IsSorted}
use francois_gingras_master.Tasks.BucketTask.Partition.Order.{Each}
use francois_gingras_master.Tasks.BucketTask.Receive.{Bucket}
use francois_gingras_master.Tasks.SampleSortTask.{sample_size, get_samples, get_splitters}
use francois_gingras_master.Tasks.SampleSortTask.Receive.{SampleSort}
use francois_gingras_master.Tasks.SampleSortTask.RoundOne.{part_of}
use francois_gingras_master.Tasks.SampleSortTask.Correct.Splitters.{
  AllBelow, get_samples-done, get_splitters-done,
}
use francois_gingras_master.Tasks.SampleSortTask.Threads.{
  Machine, RootStep, Threads, Turn, posts_from, collects, run, begin, launch,
}
use francois_gingras_master.Tasks.SampleSortTask.Threads.Plan.{Inv, RootAt}
use francois_gingras_master.Tasks.SampleSortTask.Threads.Setting.{Plan}
use francois_gingras_master.Tasks.SampleSortTask.Threads.Stages.{
  RootStage, posting, clearing, collecting, ending,
}
use francois_gingras_master.Tasks.SampleSortTask.Threads.Change.{measure}
use francois_gingras_master.Tasks.SampleSortTask.Threads.Progress.{IsOpen, opened}
use francois_gingras_master.Tasks.SampleSortTask.Threads.Ends.{
  rounds_end, ends_in_order, final_values,
}
use francois_gingras_master.Tasks.SampleSortTask.Threads.{root_start}
use francois_gingras_master.Tasks.SampleSortTask.Threads.Unhurried.{unhurried}
use francois_gingras_master.Tasks.SampleSortTask.Threads.Calm.{
  Safe, unhurried-Safe, Safe-ComesToRace,
}
use francois_gingras_master.Tasks.SampleSortTask.Threads.Columns.{IsBetween}
use francois_gingras_master.Tasks.SampleSortTask.Threads.Runs.{
  unhurried-flatten, AreRounds-unhurried,
}
use francois_gingras_master.Tasks.SampleSortTask.Threads.Races.{ComesToRace}
use francois_gingras_master.Tasks.SampleSortTask.Threads.Runs.{AreRounds, run_goes}
use francois_gingras_master.Tasks.SampleSortTask.Threads.Launch.{launched}

-- The root knows K, at most as many as there are ids left, and all of the data, whose block it
-- refers to from its start. It has mapped its queue, which is empty and no more than 900000 bytes
-- into its segment. 1500 positions are drawn within the data, and the values are moderate.
pub record IsPrepared (m : Machine) (k : ℕ) (ats : List ℕ) (cells : List ℤ) (this : SampleSort)
    (heap : Heap) (s : Shared) (p : Process) (room : ℕ) : Type 0 where
  pub told : this.k ≡ pos (suc k)
  pub block : get_elem? heap this.data_ref.block ≡ some cells
  pub whole : this.data_ref.offset ≡ 0
  pub sized : this.size ≡ length cells
  pub drawn : length ats ≡ sample_size
  pub within : AllBelow (length cells) ats
  pub moderate : Each IsModerate cells
  pub long : length p.task_table ≡ max_task
  pub enough : s.next_task_id + suc k ≤ max_task
  pub own : this.task_id < s.next_task_id
  pub mapped : IsMapped p this.task_id (m.at this.task_id)
  pub waiting : Bears (s.segments this.task_id) [] room
  pub roomy : room ≤ 900000

-- The buckets' arrays, one after the other, are an ascending rearrangement of the data.
pub record IsSortedBy (k : ℕ) (cells : List ℤ) (c : Threads) : Type 0 where
  pub count : length (map final_values c.buckets) ≡ suc k
  pub ascending : IsSorted (flatten (map final_values c.buckets))
  pub same_values : Perm (flatten (map final_values c.buckets)) cells

at_end :
    (m : Machine) (P : Plan) (stage : RootStage) (todo : List RootStep)
    → IsOpen m P stage
    → RootAt m P stage todo
    → (todo ≢ []) ⊎ (stage ≡ ending 0)
unfolding posts_from collects
at_end m P (posting p x zero) todo o a = absurd (omega arith)
at_end m P (posting p x (suc n)) todo o (inl e) = inl (λ z. cc)
at_end m P (posting p x (suc n)) todo o (inr (after, e, f)) = inl (λ z. cc)
at_end m P clearing todo o (inl e) = inl (λ z. cc)
at_end m P clearing todo o (inr (after, e, f)) = inl (λ z. cc)
at_end m P (collecting zero) todo o a = absurd (omega arith)
at_end m P (collecting (suc n)) todo o (inl e) = inl (λ z. cc)
at_end m P (collecting (suc n)) todo o (inr (after, e, f)) = inl (λ z. cc)
at_end m P (ending zero) todo o a = inr refl
at_end m P (ending (suc n)) todo o (inl e) = inl (λ z. cc)
at_end m P (ending (suc n)) todo o (inr (after, e, f)) = inl (λ z. cc)

module _ (m : Machine) (k : ℕ) (ats : List ℕ) (cells : List ℤ) (this : SampleSort) (memory : Bucket)
    (heap : Heap) (s : Shared) (p : Process) (room : ℕ)
    (h : IsPrepared m k ats cells this heap s p room) where
  -- The threads that are started, and the plan of their run.
  abbrev Begun : Type 0
  Begun =
      (P : Plan) × (c : Threads) × (begin m ats this memory heap s p ≡ done c)
      × Inv m P c
      × (measure c ≡ 21 * suc k + 1)
      × (P.k ≡ k)
      × (flatten (map (part_of P.cells) P.refs) ≡ cells)
      × (c.root.todo ≡ root_start (suc k))

  begins :
      (samples splitters : List ℤ)
      → get_samples cells ats ≡ done samples
      → get_splitters m.lib (suc k) samples ≡ done splitters
      → begin m ats this memory heap s p ≡ launch m (suc k) splitters this memory heap s p
  unfolding begin
  begins samples splitters drawn split =
      let told = h.told in
      let block = h.block in let whole = h.whole in simp (told, block, whole, drawn, split)

  begun : Begun
  begun =
      let (samples, drawn, size, moderate) = get_samples-done cells ats h.moderate h.within in
      let (first, rest, split, many) =
        get_splitters-done m.lib k samples (size ∙ h.drawn) moderate in
      let (P, c, start, inv, left, same_k, same, first_todo) =
        launched m k first rest this memory heap cells s p room many (h.block) (h.whole) (h.sized)
          (h.long) (h.enough) (h.own) (h.mapped) (h.waiting) (h.roomy) in
      (P, c, begins samples (first ∷ rest) drawn split ∙ start, inv, left, same_k, same, first_todo)

  sorted_then :
      (P : Plan) (c : Threads) (inv : Inv m P c)
      → P.k ≡ k
      → flatten (map (part_of P.cells) P.refs) ≡ cells
      → inv.stage ≡ ending 0
      → IsSortedBy k cells c
  sorted_then P c inv same_k same at =
      let (count, ascending, kept) = ends_in_order m P c inv at (rw same (h.moderate)) in
      record {
        count = count ∙ ap suc same_k;
        ascending = ascending;
        same_values = subst (Perm (flatten (map final_values c.buckets))) same kept;
      }

  -- The sample sort ends or comes to the race of its third round: where the root is prepared
  -- (IsPrepared), under every schedule that gives each thread a turn in each of 21 * K + 1 rounds, in
  -- any order and with any further turns between them, no step fails, the root comes to its end, and
  -- then the buckets' arrays, one after the other, are an ascending rearrangement of the data; or in
  -- the course of the schedule, without a failure before, the threads come to a state in which the
  -- root is about to build a column and a bucket has returned from `start`.
  pub rounds-IsSortedBy :
      (rounds : List (List Turn))
      → AreRounds k rounds
      → 21 * suc k + 1 ≤ length rounds
      → (c : Threads) × (begin m ats this memory heap s p ≡ done c)
        × (((c' : Threads) × (run m (flatten rounds) c ≡ done c')
              × (c'.root.todo ≡ [])
              × IsSortedBy k cells c')
            ⊎ ComesToRace m (flatten rounds) c)
  unfolding collects
  rounds-IsSortedBy rounds are enough =
      let (P, c, start, inv, left, same_k, same, first_todo) = begun in
      (
        c,
        start,
        elim (rounds_end m P rounds c (subst (λ n. AreRounds n rounds) (sym same_k) are) inv
            (omega (arith, left))) [
              | inl (c', e, (inv', at)) ↦ inl (
                c',
                e,
                over P c' (subst (λ s. RootAt m P s c'.root.todo) at (inv'.todo_at)),
                sorted_then P c' inv' same_k same at,
              )
              | inr race ↦ inr race
            ],
      )
    where
      over : (P : Plan) (c' : Threads) → RootAt m P (ending 0) c'.root.todo → c'.root.todo ≡ []
      over P c' (inl e) = e
      over P c' (inr (after, e, f)) = absurd (cc)

  -- Where the root is prepared (IsPrepared), under any schedule, no step fails, and the root has not
  -- come to its end yet, or the buckets' arrays, one after the other, are an ascending rearrangement
  -- of the data; or in the course of the schedule, without a failure before, the threads come to a
  -- state in which the root is about to build a column and a bucket has returned from `start`.
  pub run-IsSortedBy :
      (turns : List Turn)
      → (c : Threads) × (begin m ats this memory heap s p ≡ done c)
        × (((c' : Threads) × (run m turns c ≡ done c')
              × ((c'.root.todo ≢ []) ⊎ IsSortedBy k cells c'))
            ⊎ ComesToRace m turns c)
  run-IsSortedBy turns =
      let (P, c, start, inv, left, same_k, same, first_todo) = begun in
      (
        c,
        start,
        elim (run_goes m P turns c inv) [
          | inl (c', e, inv', o) ↦
              let (inv'', open_now) = opened m P c' inv' in
              inl (
                c',
                e,
                elim (at_end m P (inv''.stage) c'.root.todo open_now (inv''.todo_at)) [
                  | inl running ↦ inl running
                  | inr at ↦ inr (sorted_then P c' inv'' same_k same at)
                ],
              )
          | inr race ↦ inr race
        ],
      )

  -- A root that is not interrupted does not come to the race: where the root is prepared (IsPrepared),
  -- take any schedule that gives each thread a turn in each of 21 * K + 1 rounds, in any order and
  -- with any further turns between them, and let the root take 21 * K + 2 turns in a row for each of
  -- its turns. Then no step fails, the root comes to its end, and the buckets' arrays, one after the
  -- other, are an ascending rearrangement of the data.
  pub unhurried-IsSortedBy :
      (rounds : List (List Turn))
      → AreRounds k rounds
      → 21 * suc k + 1 ≤ length rounds
      → (c : Threads) × (c' : Threads) × (begin m ats this memory heap s p ≡ done c)
        × (run m (unhurried (21 * suc k + 2) (flatten rounds)) c ≡ done c')
        × (c'.root.todo ≡ [])
        × IsSortedBy k cells c'
  unfolding root_start posts_from
  unhurried-IsSortedBy rounds are enough =
      let (P, c, start, inv, left, same_k, same, first_todo) = begun in
      let n = 21 * suc k + 2 in
      let one_more : suc (21 * suc k + 1) ≡ n = omega arith in
      let turns = map (unhurried n) rounds in
      let flat : unhurried n (flatten rounds) ≡ flatten turns = unhurried-flatten n rounds in
      let between : IsBetween m P c = λ x rest e. let clash = sym first_todo ∙ e in cc in
      let safe : Safe m P (flatten turns) c =
        subst (λ us. Safe m P us c) flat
          (unhurried-Safe m P n (flatten rounds) c inv between (omega (arith, left))) in
      let (c1, start', o) =
        rounds-IsSortedBy turns
          (subst (λ x. AreRounds k (map (unhurried x) rounds)) one_more
            (AreRounds-unhurried k (21 * suc k + 1) rounds are))
          (omega (arith, length-map (unhurried n) rounds)) in
      let one : done c ≡ done c1 = sym start ∙ start' in
      let is : c ≡ c1 = cc in
      elim o [
        | inl (c', e, over, sorted) ↦ (
          c,
          c',
          start,
          ap (λ us. run m us c) flat ∙ ap (run m (flatten turns)) is ∙ e,
          over,
          sorted,
        )
        | inr race ↦ absurd (
            Safe-ComesToRace m P (flatten turns) c safe
              (subst (ComesToRace m (flatten turns)) (sym is) race))
      ]
