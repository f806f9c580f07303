-- ===== src/Tasks/SampleSortTask/Threads/Moves.antt =====
-- The turns of the root and of the buckets, and what a bucket waits for.
use mathlib.Core.Path.{subst}
use francois_gingras_master.Common.{
  ℕ, zero, suc, ◌≡◌, ◌⊎◌, inl, inr, refl, ap, true, false, Option-cases, List, [], ◌∷◌, length,
  get_elem?, done, leb, arith,
}
use francois_gingras_master.Messages.Header.{Heap, Ptr}
use francois_gingras_master.Messages.Message.{Message}
use francois_gingras_master.Tasks.SampleSortTask.{SubArrays}
use francois_gingras_master.Tasks.SampleSortTask.Threads.{
  Machine, Post, the_column, BucketStep, Threads, Turn, bucket, collects, step, root_step,
  bucket_turn,
}
use francois_gingras_master.Tasks.SampleSortTask.Threads.Plan.{RootInv, Inv, RootAt}
use francois_gingras_master.Tasks.SampleSortTask.Threads.Setting.{Plan, Pending}
use francois_gingras_master.Tasks.SampleSortTask.Threads.Stages.{
  Stage, fresh, informed, referred, split, signalled, replied, rebuilt, ended, RootStage, posting,
  clearing, collecting, ending, expected, pick_where, has_ended, At,
}
use francois_gingras_master.Tasks.SampleSortTask.Threads.Change.{Goes}
use francois_gingras_master.Tasks.SampleSortTask.Threads.Finishing.{Waits, bucket_turn-Goes}
use francois_gingras_master.Tasks.SampleSortTask.Threads.Races.{races}
use francois_gingras_master.Tasks.SampleSortTask.Threads.Root.{root_posts}
use francois_gingras_master.Tasks.SampleSortTask.Threads.Collecting.{
  RootWaits, clears-Goes, collecting_goes, ending_goes,
}
use francois_gingras_master.Tasks.SampleSortTask.Threads.Progress.{IsOpen, opened}

module _ (m : Machine) (P : Plan) where
  -- The root waits, has ended, or goes on.
  pub root_open_goes :
      (c : Threads) (inv : Inv m P c) (stage : RootStage)
      → inv.stage ≡ stage
      → IsOpen m P stage
      → RootAt m P stage c.root.todo
      → RootInv m P stage
          (inv.rs)
          c.heap
          c.root.state
          (c.shared.segments P.root_id)
          (length (pick_where has_ended c.buckets P.refs))
      → races c ≡ false
      → RootWaits m P c ⊎ ((step m Turn.root c ≡ done c) × (c.root.todo ≡ []))
  unfolding step root_step collects
  root_open_goes c inv (posting p x zero) at o todo g safe = absurd (omega arith)
  root_open_goes c inv (posting p x (suc n)) at o todo g safe =
      inl (inr (root_posts m P c inv p x n at safe))
  root_open_goes c inv clearing at o todo g safe = inl (inr (clears-Goes m P c inv at todo g))
  root_open_goes c inv (collecting zero) at o todo g safe = absurd (omega arith)
  root_open_goes c inv (collecting (suc n)) at o todo g safe =
      inl (collecting_goes m P c inv n at todo g)
  root_open_goes c inv (ending (suc n)) at o todo g safe = inl (ending_goes m P c inv n at todo g)
  root_open_goes c inv (ending zero) at o (inl todo) g safe =
      inr (ap (λ l. root_step m l c) todo, todo)
  root_open_goes c inv (ending zero) at o (inr (after, e, todo)) g safe = absurd (cc)

  pub root_turn_goes :
      (c : Threads)
      → Inv m P c
      → races c ≡ false
      → RootWaits m P c ⊎ ((step m Turn.root c ≡ done c) × (c.root.todo ≡ []))
  root_turn_goes c inv safe =
      let (inv', o) = opened m P c inv in
      root_open_goes c inv' (inv'.stage) refl o (inv'.todo_at) (inv'.gathers) safe

  -- A turn changes nothing, or leaves less to do.
  pub turn-Goes :
      (c : Threads) (t : Turn)
      → Inv m P c
      → races c ≡ false
      → (step m t c ≡ done c) ⊎ Goes m P c (step m t c)
  unfolding step bucket_turn
  turn-Goes c Turn.root inv safe = elim (root_turn_goes c inv safe) [
    | inl (inl (same, _)) ↦ inl same
    | inl (inr goes) ↦ inr goes
    | inr (same, _) ↦ inl same
  ]
  turn-Goes c (bucket i) inv safe = elim (Option-cases (get_elem? c.buckets i)) [
    | inl nobody ↦ inl (rw nobody refl)
    | inr (t, e) ↦ elim (bucket_turn-Goes m P c i t inv e) [
      | inl (same, _) ↦ inl same
      | inr goes ↦ inr goes
    ]
  ]

  -- A bucket that has not replied, and is owed its column only, does not wait.
  pub Waits-early :
      (s : Stage) (heap : Heap) (rs : List SubArrays) (i : ℕ) (r : ℕ × Ptr) (ns : List Message)
      (future : List Post) (todo : List BucketStep)
      → At s todo
      → leb (length todo) 3 ≡ false
      → future ≡ the_column ∷ []
      → Pending m P heap rs i r ns (expected s) future
      → Waits m P s ns
      → ⊥
  Waits-early fresh heap rs i r ns future todo at early_on f p (inl e) = cc
  Waits-early fresh heap rs i r ns future todo at early_on f p (inr (aw, none_there)) =
      let same : expected fresh ≡ future =
        subst (λ l. Pending m P heap rs i r l (expected fresh) future) none_there p in
      cc
  Waits-early informed heap rs i r ns future todo at early_on f p (inl e) = cc
  Waits-early informed heap rs i r ns future todo at early_on f p (inr (aw, none_there)) =
      let same : expected informed ≡ future =
        subst (λ l. Pending m P heap rs i r l (expected informed) future) none_there p in
      cc
  Waits-early referred heap rs i r ns future todo at early_on f p (inl e) = cc
  Waits-early referred heap rs i r ns future todo at early_on f p (inr (aw, none_there)) =
      let same : expected referred ≡ future =
        subst (λ l. Pending m P heap rs i r l (expected referred) future) none_there p in
      cc
  Waits-early split heap rs i r ns future todo at early_on f p (inl e) = cc
  Waits-early split heap rs i r ns future todo at early_on f p (inr (aw, none_there)) =
      let same : expected split ≡ future =
        subst (λ l. Pending m P heap rs i r l (expected split) future) none_there p in
      cc
  Waits-early signalled heap rs i r ns future todo at early_on f p (inl e) = cc
  Waits-early signalled heap rs i r ns future todo at early_on f p (inr (aw, none_there)) = cc
  Waits-early replied heap rs i r ns future todo (inl e) early_on f p w =
      let no_more : true ≡ false = rw e at early_on in cc
  Waits-early replied heap rs i r ns future todo (inr (aw, e)) early_on f p w =
      let no_more : true ≡ false = rw e at early_on in cc
  Waits-early rebuilt heap rs i r ns future todo (inl e) early_on f p w =
      let no_more : true ≡ false = rw e at early_on in cc
  Waits-early rebuilt heap rs i r ns future todo (inr (aw, e)) early_on f p w = cc
  Waits-early ended heap rs i r ns future todo (inl e) early_on f p w =
      let no_more : true ≡ false = rw e at early_on in cc
  Waits-early ended heap rs i r ns future todo (inr (aw, e)) early_on f p w = cc

  -- Nor does one that has not ended, and is owed nothing.
  pub Waits-late :
      (s : Stage) (heap : Heap) (rs : List SubArrays) (i : ℕ) (r : ℕ × Ptr) (ns : List Message)
      (future : List Post) (todo : List BucketStep)
      → At s todo
      → leb (length todo) 0 ≡ false
      → future ≡ []
      → Pending m P heap rs i r ns (expected s) future
      → Waits m P s ns
      → ⊥
  Waits-late ended heap rs i r ns future todo (inl e) running f p w =
      let no_more : true ≡ false = rw e at running in cc
  Waits-late ended heap rs i r ns future todo (inr (aw, e)) running f p w = cc
  Waits-late rebuilt heap rs i r ns future todo at running f p (inl e) = cc
  Waits-late rebuilt heap rs i r ns future todo at running f p (inr (aw, none_there)) = cc
  Waits-late signalled heap rs i r ns future todo at running f p (inl e) = cc
  Waits-late signalled heap rs i r ns future todo at running f p (inr (aw, none_there)) = cc
  Waits-late fresh heap rs i r ns future todo at running f p (inl e) = cc
  Waits-late fresh heap rs i r ns future todo at running f p (inr (aw, none_there)) =
      let same : expected fresh ≡ future =
        subst (λ l. Pending m P heap rs i r l (expected fresh) future) none_there p in
      cc
  Waits-late informed heap rs i r ns future todo at running f p (inl e) = cc
  Waits-late informed heap rs i r ns future todo at running f p (inr (aw, none_there)) =
      let same : expected informed ≡ future =
        subst (λ l. Pending m P heap rs i r l (expected informed) future) none_there p in
      cc
  Waits-late referred heap rs i r ns future todo at running f p (inl e) = cc
  Waits-late referred heap rs i r ns future todo at running f p (inr (aw, none_there)) =
      let same : expected referred ≡ future =
        subst (λ l. Pending m P heap rs i r l (expected referred) future) none_there p in
      cc
  Waits-late split heap rs i r ns future todo at running f p (inl e) = cc
  Waits-late split heap rs i r ns future todo at running f p (inr (aw, none_there)) =
      let same : expected split ≡ future =
        subst (λ l. Pending m P heap rs i r l (expected split) future) none_there p in
      cc
  Waits-late replied heap rs i r ns future todo at running f p (inl e) = cc
  Waits-late replied heap rs i r ns future todo at running f p (inr (aw, none_there)) =
      let same : expected replied ≡ future =
        subst (λ l. Pending m P heap rs i r l (expected replied) future) none_there p in
      cc
