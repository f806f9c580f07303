-- ===== src/Tasks/SampleSortTask/Threads/Turns.antt =====
-- Which thread of a sample sort can take a step.
use mathlib.Core.Path.{subst}
use francois_gingras_master.Common.{false}
use francois_gingras_master.Common.{
  ℕ, zero, suc, ◌<◌, ◌≡◌, ◌⊎◌, inl, inr, refl, sym, ◌∙◌, some, [], ◌∷◌, ◌++◌, map, length,
  length-append, length-map, get_elem?, get_elem?-lt, arith,
}
use francois_gingras_master.Messages.Message.{ref_two_dim, signal}
use francois_gingras_master.System.Delivery.Lane.{Bears}
use francois_gingras_master.Tasks.SampleSortTask.Threads.{
  Machine, BucketThread, Threads, Turn, bucket, step,
}
use francois_gingras_master.Tasks.SampleSortTask.Threads.Plan.{RootInv, early, late, Inv, RootAt}
use francois_gingras_master.Tasks.SampleSortTask.Threads.Setting.{Plan, reply}
use francois_gingras_master.Tasks.SampleSortTask.Threads.Stages.{
  RootStage, posting, clearing, collecting, ending, Owed, pick_where, has_ended, has_replied,
}
use francois_gingras_master.Tasks.SampleSortTask.Threads.Picks.{pick_where_missing, length-permᴰ}
use francois_gingras_master.Tasks.SampleSortTask.Threads.Change.{Goes}
use francois_gingras_master.Tasks.SampleSortTask.Threads.Finishing.{Waits, bucket_turn-Goes}
use francois_gingras_master.Tasks.SampleSortTask.Threads.Races.{races}
use francois_gingras_master.Tasks.SampleSortTask.Threads.Root.{root_posts}
use francois_gingras_master.Tasks.SampleSortTask.Threads.Collecting.{
  clears-Goes, collecting_goes, ending_goes,
}
use francois_gingras_master.Tasks.SampleSortTask.Threads.Progress.{
  AllRefer-length, Bears-empty, IsOpen, opened,
}
use francois_gingras_master.Tasks.SampleSortTask.Threads.Moves.{Waits-early, Waits-late}

module _ (m : Machine) (P : Plan) where
  -- The turn of a thread that there is.
  abbrev pub IsTurn : Turn → Type 0
  IsTurn Turn.root = Unit {0}
  IsTurn (bucket i) = i < suc (P.k)

  abbrev pub CanGo : Threads → Type 0
  CanGo c = (t : Turn) × IsTurn t × Goes m P c (step m t c)

  bucket_can :
      (c : Threads) (inv : Inv m P c) (i : ℕ) (t : BucketThread)
      (e : get_elem? c.buckets i ≡ some t)
      → (let b = inv.each i t e in Waits m P (b.at) (b.ns) → ⊥)
      → CanGo c
  bucket_can c inv i t e moves = elim (bucket_turn-Goes m P c i t inv e) [
    | inl (same, w) ↦ absurd (moves w)
    | inr goes ↦ (bucket i, omega (arith, get_elem?-lt c.buckets i t e, inv.count), goes)
  ]

  -- With an empty queue some bucket goes on.
  collecting_can :
      (c : Threads) (inv : Inv m P c) (n used : ℕ)
      → inv.stage ≡ collecting (suc n)
      → Bears (c.shared.segments P.root_id) [] used
      → RootInv m P
          (collecting (suc n))
          (inv.rs)
          c.heap
          c.root.state
          (c.shared.segments P.root_id)
          (length (pick_where has_ended c.buckets P.refs))
      → CanGo c
  collecting_can c inv n used at nothing (late got there u full refer arr dones bears bound f) =
      absurd f
  collecting_can c inv n used at nothing (early got (x ∷ there) u refer tagged bears bound slots) =
      absurd (
        Bears-empty (c.shared.segments P.root_id) (ref_two_dim x) (map ref_two_dim there) used u
          nothing bears)
  collecting_can c inv n used at nothing
        (early got [] u refer tagged bears bound (arr, count, size)) =
      let all = length-map (reply m P) P.refs in
      let (i, t, e, behind) =
        pick_where_missing has_replied c.buckets (map (reply m P) P.refs)
          (inv.count ∙ sym (all ∙ P.referenced))
          (omega (
            arith,
            all,
            P.referenced,
            length-permᴰ (inv.arrived),
            AllRefer-length c.heap (got ++ []) (inv.rs) refer,
            length-append got [],
          )) in
      let b = inv.each i t e in
      bucket_can c inv i t e (
        Waits-early m P (b.at) c.heap (inv.rs) i (b.ref) (b.ns) (b.future) t.todo (b.todo_at) behind
          (subst (λ s. Owed s i (b.future)) at (b.owed)) (b.pending))

  ending_can :
      (c : Threads) (inv : Inv m P c) (n used : ℕ)
      → inv.stage ≡ ending (suc n)
      → Bears (c.shared.segments P.root_id) [] used
      → RootInv m P
          (ending (suc n))
          (inv.rs)
          c.heap
          c.root.state
          (c.shared.segments P.root_id)
          (length (pick_where has_ended c.buckets P.refs))
      → CanGo c
  ending_can c inv n used at nothing (early got there u refer tagged bears bound g) = absurd g
  ending_can c inv n used at nothing (late got (x ∷ there) u full refer arr dones bears bound f) =
      absurd (
        Bears-empty (c.shared.segments P.root_id) (signal x) (map signal there) used u nothing
          bears)
  ending_can c inv n used at nothing (late got [] u full refer arr dones bears bound f) =
      let (i, t, e, behind) =
        pick_where_missing has_ended c.buckets P.refs (inv.count ∙ sym (P.referenced))
          (omega (arith, P.referenced)) in
      let b = inv.each i t e in
      bucket_can c inv i t e (
        Waits-late m P (b.at) c.heap (inv.rs) i (b.ref) (b.ns) (b.future) t.todo (b.todo_at) behind
          (subst (λ s. Owed s i (b.future)) at (b.owed)) (b.pending))

  open_can :
      (c : Threads) (inv : Inv m P c) (stage : RootStage)
      → inv.stage ≡ stage
      → IsOpen m P stage
      → RootAt m P stage c.root.todo
      → RootInv m P stage
          (inv.rs)
          c.heap
          c.root.state
          (c.shared.segments P.root_id)
          (length (pick_where has_ended c.buckets P.refs))
      → races c ≡ false
      → CanGo c ⊎ (stage ≡ ending 0)
  open_can c inv (posting p x zero) at o todo g safe = absurd (omega arith)
  open_can c inv (posting p x (suc n)) at o todo g safe =
      inl (Turn.root, tt, root_posts m P c inv p x n at safe)
  open_can c inv clearing at o todo g safe = inl (Turn.root, tt, clears-Goes m P c inv at todo g)
  open_can c inv (collecting zero) at o todo g safe = absurd (omega arith)
  open_can c inv (collecting (suc n)) at o todo g safe =
      elim (collecting_goes m P c inv n at todo g) [
        | inl (same, (used, nothing)) ↦ inl (collecting_can c inv n used at nothing g)
        | inr goes ↦ inl (Turn.root, tt, goes)
      ]
  open_can c inv (ending zero) at o todo g safe = inr refl
  open_can c inv (ending (suc n)) at o todo g safe = elim (ending_goes m P c inv n at todo g) [
    | inl (same, (used, nothing)) ↦ inl (ending_can c inv n used at nothing g)
    | inr goes ↦ inl (Turn.root, tt, goes)
  ]

  -- Some thread goes on, or the root has ended.
  pub can_go :
      (c : Threads)
      → Inv m P c
      → races c ≡ false
      → CanGo c ⊎ ((inv : Inv m P c) × (inv.stage ≡ ending 0))
  can_go c inv safe =
      let (inv', o) = opened m P c inv in
      elim (open_can c inv' (inv'.stage) refl o (inv'.todo_at) (inv'.gathers) safe) [
        | inl can ↦ inl can
        | inr over ↦ inr (inv', over)
      ]
