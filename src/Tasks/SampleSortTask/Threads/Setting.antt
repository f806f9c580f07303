-- ===== src/Tasks/SampleSortTask/Threads/Setting.antt =====
-- What stays the same in a sample sort, and what holds of one bucket.
use francois_gingras_master.Common.{
  ℕ, suc, ◌+◌, ◌*◌, ◌≤◌, ◌≡◌, ◌≢◌, some, ℤ, pos, List, [], ◌∷◌, map, take, length, get_elem?, done,
}
use francois_gingras_master.Queue.{Queue}
use francois_gingras_master.Messages.Header.{Heap, Ptr}
use francois_gingras_master.Messages.Message.{
  Message, topology, ref_int_array, int_array, signal, ref_two_dim,
}
use francois_gingras_master.System.{Process}
use francois_gingras_master.System.Delivery.{IsMapped}
use francois_gingras_master.System.Delivery.Lane.{Bears}
use francois_gingras_master.Tasks.BucketTask.{rebuild, final_sort}
use francois_gingras_master.Tasks.BucketTask.Receive.{Bucket}
use francois_gingras_master.Tasks.BucketTask.Rounds.{Refers}
use francois_gingras_master.Tasks.SampleSortTask.{SubArrays, column}
use francois_gingras_master.Tasks.SampleSortTask.Correct.Rounds.{rows_of}
use francois_gingras_master.Tasks.SampleSortTask.RoundOne.{part_of}
use francois_gingras_master.Tasks.SampleSortTask.Threads.{
  Machine, BucketThread, Post, the_topology, the_reference, the_splitters, the_signal, the_column,
}
use francois_gingras_master.Tasks.SampleSortTask.Threads.Stages.{
  Stage, fresh, informed, referred, split, signalled, replied, rebuilt, ended, At, expected,
  RootStage, Owed,
}

-- What stays the same during a run with suc k buckets: the splitters, the ids, the block of the
-- data and the buckets' references into it, and where the queues are mapped. `room` bounds what was
-- written into the root's queue before.
pub record Plan : Type 0 where
  pub k : ℕ
  pub first : ℤ
  pub rest : List ℤ
  pub root_id : ℕ
  pub ids : List ℕ
  pub block : ℕ
  pub cells : List ℤ
  pub refs : List (ℕ × Ptr)
  pub process : Process
  pub base : ℕ → ℕ
  pub room : ℕ
  pub many : length ids ≡ suc k
  pub few : suc k ≤ 100
  pub splits : length rest ≡ k
  pub referenced : length refs ≡ suc k
  pub refs_within :
      (i : ℕ) (r : ℕ × Ptr)
      → get_elem? refs i ≡ some r
      → (r.1.block ≡ block) × (r.1.offset + r.0 ≤ length cells)
  pub mapped_root : IsMapped process root_id (base root_id)
  pub mapped : (i id : ℕ) → get_elem? ids i ≡ some id → IsMapped process id (base id)
  pub apart : (i id : ℕ) → get_elem? ids i ≡ some id → id ≢ root_id
  pub distinct : (i j id : ℕ) → get_elem? ids i ≡ some id → get_elem? ids j ≡ some id → i ≡ j
  pub roomy : room ≤ 900000

module _ (m : Machine) (P : Plan) where
  open P use {k, first, rest, root_id, ids, block, cells, refs, room}

  -- What a bucket computes from its part of the data.
  abbrev pub reply : ℕ × Ptr → SubArrays
  reply r =
      (map length (rows_of first rest (part_of cells r)), rows_of first rest (part_of cells r))

  -- The array that bucket i rebuilds from the replies, in the order in which they have arrived.
  abbrev pub Rebuilds : List SubArrays → ℕ → List ℤ → Type 0
  Rebuilds rs i out =
      (cs : List ℕ) × (vs : List (List ℤ)) × (column i rs ≡ done (cs, vs))
      × (rebuild cs vs ≡ done out)

  -- The message that a post brings to bucket i.
  abbrev pub Brings : Heap → List SubArrays → ℕ → ℕ × Ptr → Post → Message → Type 0
  Brings heap rs i r the_topology (topology t) =
      (t.tag ≡ pos 2)
      × (t.bucket_count ≡ suc k)
      × (t.root_id ≡ root_id)
      × (suc k ≤ length t.bucket_ids.items)
  Brings heap rs i r the_reference (ref_int_array t) =
      (t.tag ≡ pos 3) × (t.size ≡ r.0) × (t.values ≡ r.1)
  Brings heap rs i r the_splitters (int_array t) =
      (t.tag ≡ pos 4)
      × (take t.size t.values.items ≡ first ∷ rest)
      × (t.size ≤ length t.values.items)
  Brings heap rs i r the_signal (signal t) = t.tag ≡ pos 5
  Brings heap rs i r the_column (ref_two_dim t) =
      (t.tag ≡ pos 7)
      × ((cs : List ℕ) × (vs : List (List ℤ)) × (out : List ℤ) × (column i rs ≡ done (cs, vs))
          × (rebuild cs vs ≡ done out)
          × Refers heap t cs vs)
  Brings heap rs i r _ _ = ⊥

  -- The messages on their way bring what is expected next, and the rest is still owed.
  abbrev pub Pending :
      Heap → List SubArrays → ℕ → ℕ × Ptr → List Message → List Post → List Post → Type 0
  Pending heap rs i r [] es future = es ≡ future
  Pending heap rs i r (n ∷ ns) [] future = ⊥
  Pending heap rs i r (n ∷ ns) (e ∷ es) future =
      Brings heap rs i r e n × Pending heap rs i r ns es future

  abbrev pub KnowsTopology : Bucket → Type 0
  KnowsTopology b = (b.bucket_count ≡ suc k) × (b.root_id ≡ root_id)

  abbrev pub KnowsData : ℕ × Ptr → Bucket → Type 0
  KnowsData r b = (b.data_size ≡ r.0) × (b.data_ref ≡ r.1)

  -- What the fields of a bucket are by then.
  abbrev pub Knows : Stage → List SubArrays → ℕ → ℕ × Ptr → Bucket → Type 0
  unfolding KnowsTopology KnowsData
  Knows fresh rs i r b = Unit {0}
  Knows informed rs i r b = KnowsTopology b
  Knows referred rs i r b = KnowsTopology b × KnowsData r b
  Knows split rs i r b = KnowsTopology b × KnowsData r b × (b.splitters ≡ first ∷ rest)
  Knows signalled rs i r b = KnowsTopology b × KnowsData r b × (b.splitters ≡ first ∷ rest)
  Knows replied rs i r b = b.root_id ≡ root_id
  Knows rebuilt rs i r b = (b.root_id ≡ root_id) × Rebuilds rs i b.final_data_values
  Knows ended rs i r b =
      (out : List ℤ) × Rebuilds rs i out × (b.final_data_values ≡ final_sort m.lib out)

  -- Bucket i, with its queue.
  pub record BucketInv (stage : RootStage) (rs : List SubArrays) (heap : Heap) (i : ℕ)
      (t : BucketThread) (q : Queue Message) : Type 0 where
    pub at : Stage
    pub todo_at : At at t.todo
    pub self : get_elem? ids i ≡ some t.state.task_id
    pub ref : ℕ × Ptr
    pub ref_at : get_elem? refs i ≡ some ref
    pub knows : Knows at rs i ref t.state
    pub ns : List Message
    pub future : List Post
    pub used : ℕ
    pub bears : Bears q ns used
    pub budget : used + 50000 * length future ≤ 300000
    pub owed : Owed stage i future
    pub pending : Pending heap rs i ref ns (expected at) future
