-- ===== src/Tasks/SampleSortTask/Threads/Frame.antt =====
-- What a step of one thread leaves as it was for the others.
use mathlib.Core.Path.{subst}
use native.Mathlib.Decide.{dec_lt}
use francois_gingras_master.Common.{ℕ, ◌≢◌, sym, ◌∙◌, List, [], ◌++◌, arith}
use francois_gingras_master.Queue.{Queue}
use francois_gingras_master.Messages.Header.{Heap, Ptr}
use francois_gingras_master.Messages.RefTwoDimIntArrayMsg.{RefTwoDimIntArrayMsg}
use francois_gingras_master.Messages.Message.{Message}
use francois_gingras_master.System.{Shared, with_segment}
use francois_gingras_master.System.Delivery.{segments-with_segment}
use francois_gingras_master.Tasks.BucketTask.Receive.{Bucket}
use francois_gingras_master.Tasks.SampleSortTask.{SubArrays}
use francois_gingras_master.Tasks.SampleSortTask.Receive.{SampleSort}
use francois_gingras_master.Tasks.SampleSortTask.Threads.{
  Machine, BucketThread, Post, the_topology, the_reference, the_splitters, the_signal, the_column,
}
use francois_gingras_master.Tasks.SampleSortTask.Threads.Plan.{Gathered, RootInv, early, late}
use francois_gingras_master.Tasks.SampleSortTask.Threads.Setting.{Plan, Pending, Knows, BucketInv}
use francois_gingras_master.Tasks.SampleSortTask.Threads.Stages.{
  Stage, fresh, informed, referred, split, signalled, replied, rebuilt, ended, expected, RootStage,
  posting, clearing, collecting, ending, Owed,
}
use francois_gingras_master.Tasks.SampleSortTask.Threads.Brings.{
  AllRefer-extend, expected-ColumnLast, Pending-extend, Pending-arrive, Pending-nothing,
}

module _ (m : Machine) (P : Plan) where
  -- Blocks are added, none changes.
  pub BucketInv-extend :
      (stage : RootStage) (rs : List SubArrays) (heap new : Heap) (i : ℕ) (t : BucketThread)
      (q : Queue Message)
      → BucketInv m P stage rs heap i t q
      → BucketInv m P stage rs (heap ++ new) i t q
  BucketInv-extend stage rs heap new i t q b = record {
    at = b.at;
    todo_at = b.todo_at;
    self = b.self;
    ref = b.ref;
    ref_at = b.ref_at;
    knows = b.knows;
    ns = b.ns;
    future = b.future;
    used = b.used;
    bears = b.bears;
    budget = b.budget;
    owed = b.owed;
    pending = Pending-extend m P heap new rs i b.ref b.ns (expected b.at) b.future b.pending;
  }

  Knows-arrive :
      (s : Stage) (heap : Heap) (rs rs' : List SubArrays) (i : ℕ) (r : ℕ × Ptr) (b : Bucket)
      (ns : List Message) (future : List Post)
      → future ≢ []
      → Pending m P heap rs i r ns (expected s) future
      → Knows m P s rs i r b
      → Knows m P s rs' i r b
  Knows-arrive fresh heap rs rs' i r b ns future owing h k = k
  Knows-arrive informed heap rs rs' i r b ns future owing h k = k
  Knows-arrive referred heap rs rs' i r b ns future owing h k = k
  Knows-arrive split heap rs rs' i r b ns future owing h k = k
  Knows-arrive signalled heap rs rs' i r b ns future owing h k = k
  Knows-arrive replied heap rs rs' i r b ns future owing h k = k
  Knows-arrive rebuilt heap rs rs' i r b ns future owing h k =
      absurd (owing (Pending-nothing m P heap rs i r ns future h).1)
  Knows-arrive ended heap rs rs' i r b ns future owing h k =
      absurd (owing (Pending-nothing m P heap rs i r ns future h).1)

  -- While replies arrive, a column is owed to every bucket.
  pub Owed-early :
      (stage : RootStage) (st : SampleSort) (got : List RefTwoDimIntArrayMsg) (i : ℕ)
      (future : List Post)
      → Gathered m P stage st got
      → Owed stage i future
      → future ≢ []
  Owed-early (posting the_topology x n) st got i future g o z = elim (dec_lt i x) [
    | yes h ↦ let no_more = sym z ∙ o.0 h in cc
    | no h ↦ let no_more = sym z ∙ o.1 (omega arith) in cc
  ]
  Owed-early (posting the_reference x n) st got i future g o z = elim (dec_lt i x) [
    | yes h ↦ let no_more = sym z ∙ o.0 h in cc
    | no h ↦ let no_more = sym z ∙ o.1 (omega arith) in cc
  ]
  Owed-early (posting the_splitters x n) st got i future g o z = elim (dec_lt i x) [
    | yes h ↦ let no_more = sym z ∙ o.0 h in cc
    | no h ↦ let no_more = sym z ∙ o.1 (omega arith) in cc
  ]
  Owed-early (posting the_signal x n) st got i future g o z = elim (dec_lt i x) [
    | yes h ↦ let no_more = sym z ∙ o.0 h in cc
    | no h ↦ let no_more = sym z ∙ o.1 (omega arith) in cc
  ]
  Owed-early (posting the_column x n) st got i future g o z = absurd g
  Owed-early clearing st got i future g o z = let no_more = sym z ∙ o in cc
  Owed-early (collecting n) st got i future g o z = let no_more = sym z ∙ o in cc
  Owed-early (ending n) st got i future g o z = absurd g

  -- Another reply arrives.
  pub BucketInv-arrive :
      (stage : RootStage) (rs rs' : List SubArrays) (heap : Heap) (i : ℕ) (t : BucketThread)
      (q : Queue Message) (st : SampleSort) (got : List RefTwoDimIntArrayMsg)
      → Gathered m P stage st got
      → BucketInv m P stage rs heap i t q
      → BucketInv m P stage rs' heap i t q
  BucketInv-arrive stage rs rs' heap i t q st got g b =
      let owing = Owed-early stage st got i b.future g b.owed in
      record {
        at = b.at;
        todo_at = b.todo_at;
        self = b.self;
        ref = b.ref;
        ref_at = b.ref_at;
        knows = Knows-arrive b.at heap rs rs' i b.ref t.state b.ns b.future owing b.pending b.knows;
        ns = b.ns;
        future = b.future;
        used = b.used;
        bears = b.bears;
        budget = b.budget;
        owed = b.owed;
        pending =
            Pending-arrive m P heap rs rs' i b.ref b.ns (expected b.at) b.future
              (expected-ColumnLast b.at) owing b.pending;
      }

  -- The root is further, and has sent this bucket nothing.
  pub BucketInv-restage :
      (stage stage' : RootStage) (rs : List SubArrays) (heap : Heap) (i : ℕ) (t : BucketThread)
      (q : Queue Message)
      → ((future : List Post) → Owed stage i future → Owed stage' i future)
      → BucketInv m P stage rs heap i t q
      → BucketInv m P stage' rs heap i t q
  BucketInv-restage stage stage' rs heap i t q f b = record {
    at = b.at;
    todo_at = b.todo_at;
    self = b.self;
    ref = b.ref;
    ref_at = b.ref_at;
    knows = b.knows;
    ns = b.ns;
    future = b.future;
    used = b.used;
    bears = b.bears;
    budget = b.budget;
    owed = f b.future b.owed;
    pending = b.pending;
  }

  -- Another task's queue has changed.
  pub BucketInv-apart :
      (stage : RootStage) (rs : List SubArrays) (heap : Heap) (i : ℕ) (t : BucketThread)
      (s : Shared) (id : ℕ) (q : Queue Message)
      → id ≢ t.state.task_id
      → BucketInv m P stage rs heap i t (s.segments t.state.task_id)
      → BucketInv m P stage rs heap i t ((with_segment s id q).segments t.state.task_id)
  BucketInv-apart stage rs heap i t s id q other b =
      subst (BucketInv m P stage rs heap i t)
        (sym (segments-with_segment s id t.state.task_id q other)) b

  pub RootInv-extend :
      (stage : RootStage) (rs : List SubArrays) (heap new : Heap) (st : SampleSort)
      (q : Queue Message) (total : ℕ)
      → RootInv m P stage rs heap st q total
      → RootInv m P stage rs (heap ++ new) st q total
  RootInv-extend stage rs heap new st q total (early got there used a t b u g) =
      early got there used (AllRefer-extend heap new (got ++ there) rs a) t b u g
  RootInv-extend stage rs heap new st q total (late got there used n a arr d b u f) =
      late got there used n (AllRefer-extend heap new got rs a) arr d b u f
