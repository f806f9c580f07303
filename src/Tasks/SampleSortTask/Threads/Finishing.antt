-- ===== src/Tasks/SampleSortTask/Threads/Finishing.antt =====
-- All steps of a bucket.
use francois_gingras_master.Common.{
  ℕ, ◌≡◌, ◌⊎◌, inl, inr, refl, ap, true, false, some, List, [], leb, length, get_elem?, done,
}
use francois_gingras_master.Messages.Message.{Message}
use francois_gingras_master.Tasks.SampleSortTask.Threads.{
  Machine, BucketThread, Threads, bucket, step, bucket_step, bucket_turn,
}
use francois_gingras_master.Tasks.SampleSortTask.Threads.Plan.{RootInv, early, late, Inv}
use francois_gingras_master.Tasks.SampleSortTask.Threads.Setting.{Plan, Knows, Pending}
use francois_gingras_master.Tasks.SampleSortTask.Threads.Stages.{
  Stage, fresh, informed, referred, split, signalled, replied, rebuilt, ended, program, expected,
  has_replied, has_ended, pick_where, At, awaits,
}
use francois_gingras_master.Tasks.SampleSortTask.Threads.Frame.{Owed-early}
use francois_gingras_master.Tasks.SampleSortTask.Threads.Brings.{Pending-nothing}
use francois_gingras_master.Tasks.SampleSortTask.Threads.Buckets.{bucket_waits}
use francois_gingras_master.Tasks.SampleSortTask.Threads.Change.{Goes}
use francois_gingras_master.Tasks.SampleSortTask.Threads.Replies.{sends_early}
use francois_gingras_master.Tasks.SampleSortTask.Threads.Replied.{all_replied}
use francois_gingras_master.Tasks.SampleSortTask.Threads.Done.{finishes_late}

module _ (m : Machine) (P : Plan) where
  -- What a bucket lacks that cannot go on.
  abbrev pub Waits : Stage → List Message → Type 0
  Waits s ns = (s ≡ ended) ⊎ ((awaits s ≡ true) × (ns ≡ []))

  sends_any :
      (c : Threads) (i : ℕ) (t : BucketThread) (inv : Inv m P c)
      (e : get_elem? c.buckets i ≡ some t)
      → (let b = inv.each i t e in
          Knows m P signalled (inv.rs) i (b.ref) t.state
          × Pending m P c.heap (inv.rs) i (b.ref) (b.ns) (expected signalled) (b.future))
      → t.todo ≡ program signalled
      → RootInv m P
          (inv.stage)
          (inv.rs)
          c.heap
          c.root.state
          (c.shared.segments P.root_id)
          (length (pick_where has_ended c.buckets P.refs))
      → Goes m P c (step m (bucket i) c)
  sends_any c i t inv e facts todo (early got there used refer tagged bears bound g) =
      sends_early m P c i t inv e facts todo got there used refer tagged bears bound g
  sends_any c i t inv e facts todo (late got there used full refer arr dones bears bound f) =
      let yet : has_replied t ≡ false = ap (λ l. leb (length l) 3) todo in
      let all = (all_replied m P c inv full).1 i t e in absurd (cc)

  finishes_any :
      (c : Threads) (i : ℕ) (t : BucketThread) (inv : Inv m P c)
      (e : get_elem? c.buckets i ≡ some t)
      → (let b = inv.each i t e in
          Knows m P rebuilt (inv.rs) i (b.ref) t.state × (b.ns ≡ []) × (b.future ≡ []))
      → t.todo ≡ program rebuilt
      → RootInv m P
          (inv.stage)
          (inv.rs)
          c.heap
          c.root.state
          (c.shared.segments P.root_id)
          (length (pick_where has_ended c.buckets P.refs))
      → Goes m P c (step m (bucket i) c)
  finishes_any c i t inv e facts todo (early got there used refer tagged bears bound g) =
      let b = inv.each i t e in
      absurd (Owed-early m P (inv.stage) c.root.state got i (b.future) g (b.owed) (facts.2))
  finishes_any c i t inv e facts todo (late got there used full refer arr dones bears bound f) =
      finishes_late m P c i t inv e facts todo got there used full refer arr dones bears (bound, f)

  blocked_or_steps :
      (c : Threads) (i : ℕ) (t : BucketThread) (inv : Inv m P c)
      (e : get_elem? c.buckets i ≡ some t)
      → (s : Stage)
      → (let b = inv.each i t e in
          Knows m P s (inv.rs) i (b.ref) t.state
          × Pending m P c.heap (inv.rs) i (b.ref) (b.ns) (expected s) (b.future)
          × At s t.todo)
      → awaits s ≡ true
      → ((step m (bucket i) c ≡ done c) × Waits s (inv.each i t e).ns)
        ⊎ Goes m P c (step m (bucket i) c)
  blocked_or_steps c i t inv e s (known, pend, at) aw =
      let b = inv.each i t e in
      elim (bucket_waits m P c i t inv e s (b.ns) (known, pend, b.bears) aw at) [
        | inl (same, nothing) ↦ inl (same, inr (aw, nothing))
        | inr goes ↦ inr goes
      ]

  bucket-Goes :
      (c : Threads) (i : ℕ) (t : BucketThread) (inv : Inv m P c)
      (e : get_elem? c.buckets i ≡ some t)
      → (s : Stage)
      → (let b = inv.each i t e in
          Knows m P s (inv.rs) i (b.ref) t.state
          × Pending m P c.heap (inv.rs) i (b.ref) (b.ns) (expected s) (b.future)
          × At s t.todo)
      → ((step m (bucket i) c ≡ done c) × Waits s (inv.each i t e).ns)
        ⊎ Goes m P c (step m (bucket i) c)
  unfolding step bucket_step bucket_turn
  bucket-Goes c i t inv e ended (known, pend, inl todo) = inl (rw (e, todo) refl, inl refl)
  bucket-Goes c i t inv e ended (known, pend, inr (aw, todo)) = absurd (cc)
  bucket-Goes c i t inv e rebuilt (known, pend, inr (aw, todo)) = absurd (cc)
  bucket-Goes c i t inv e signalled (known, pend, inr (aw, todo)) = absurd (cc)
  bucket-Goes c i t inv e rebuilt (known, pend, inl todo) =
      let b = inv.each i t e in
      let nothing = Pending-nothing m P c.heap (inv.rs) i (b.ref) (b.ns) (b.future) pend in
      inr (finishes_any c i t inv e (known, nothing.0, nothing.1) todo (inv.gathers))
  bucket-Goes c i t inv e signalled (known, pend, inl todo) =
      inr (sends_any c i t inv e (known, pend) todo (inv.gathers))
  bucket-Goes c i t inv e fresh facts = blocked_or_steps c i t inv e fresh facts refl
  bucket-Goes c i t inv e informed facts = blocked_or_steps c i t inv e informed facts refl
  bucket-Goes c i t inv e referred facts = blocked_or_steps c i t inv e referred facts refl
  bucket-Goes c i t inv e split facts = blocked_or_steps c i t inv e split facts refl
  bucket-Goes c i t inv e replied facts = blocked_or_steps c i t inv e replied facts refl

  -- A bucket's turn: it waits and changes nothing, or it goes on.
  pub bucket_turn-Goes :
      (c : Threads) (i : ℕ) (t : BucketThread) (inv : Inv m P c)
      (e : get_elem? c.buckets i ≡ some t)
      → (let b = inv.each i t e in
          ((step m (bucket i) c ≡ done c) × Waits (b.at) (b.ns)) ⊎ Goes m P c (step m (bucket i) c))
  bucket_turn-Goes c i t inv e =
      let b = inv.each i t e in bucket-Goes c i t inv e (b.at) (b.knows, b.pending, b.todo_at)
