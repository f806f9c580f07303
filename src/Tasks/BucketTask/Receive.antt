-- ===== src/Tasks/BucketTask/Receive.antt =====
-- BucketTask.c: the state of a bucket, its handlers and the switch of its `receive`. The blocks that
-- messages only refer to are in a heap that all threads of the process share.
use francois_gingras_master.Common.{
  ℕ, zero, suc, ◌+◌, ℤ, pos, negsuc, List, [], ◌∷◌, ◌++◌, Outcome, done, fault, ◌>>=◌, ◌==ℤ◌,
  if◌then◌else◌,
}
use francois_gingras_master.Messages.Header.{Heap, Ptr, deref, read_array}
use francois_gingras_master.Messages.RefIntArrayMsg
use francois_gingras_master.Messages.IntArrayMsg
use francois_gingras_master.Messages.Message.{
  Message, topology, ref_int_array, int_array, ref_two_dim,
}
use francois_gingras_master.System.{Shared, Process}
use francois_gingras_master.Tasks.Dispatch.{Reaction, handles, leaves, drops}
use francois_gingras_master.Tasks.Spawn.{spawn}

-- The time accumulators are left out.
pub record Bucket : Type 0 where
  pub task_id : ℕ
  pub bucket_count : ℕ
  pub bucket_ids : List ℕ
  pub root_id : ℕ
  pub data_ref : Ptr
  pub data_size : ℕ
  pub splitters : List ℤ
  pub splitter_size : ℕ
  pub final_data_values : List ℤ
  pub final_data_size : ℕ

-- BucketTask_create: all but the id stays as `malloc` left it.
unfoldable pub create : Bucket → Shared → Process → ℕ → Outcome (Bucket × Shared × Process)
create memory s p at = do (id, s', p') ← spawn s p at; done (record memory { task_id = id }, s', p')

-- The handlers cast the message; one of another class is a fault. A message is a clone, so an array
-- that it owns is in a block of its own.
unfoldable pub handle_topology : Bucket → Message → Outcome Bucket
handle_topology this (topology m) = do
  ids ← read_array 0 m.bucket_ids m.bucket_count
  done (record this { bucket_count = m.bucket_count; bucket_ids = ids; root_id = m.root_id })
handle_topology this _ = fault

unfoldable pub handle_data_ref : Bucket → Message → Outcome Bucket
handle_data_ref this (ref_int_array m) =
    done (record this { data_size = RefIntArrayMsg.get_size m; data_ref = m.values })
handle_data_ref this _ = fault

unfoldable pub handle_splitter : Bucket → Message → Outcome Bucket
handle_splitter this (int_array m) = do
  values ← read_array 0 m.values (IntArrayMsg.get_size m)
  done (record this { splitter_size = IntArrayMsg.get_size m; splitters = values })
handle_splitter this _ = fault

-- The message is only reported.
unfoldable pub handle_get_sub_array : Bucket → Message → Outcome Bucket
handle_get_sub_array this msg = done this

-- `n` ints of a block from the index i on.
unfoldable pub read_cells : Heap → Ptr → ℕ → ℕ → Outcome (List ℤ)
read_cells heap p i zero = done []
read_cells heap p i (suc n) = do
  v ← deref heap p i
  rest ← read_cells heap p (i + 1) n
  done (v ∷ rest)

-- A negative count makes the array too short for the rows of the others: it is taken for a fault.
abbrev pub count_of : ℤ → Outcome ℕ
count_of (pos n) = done n
count_of (negsuc n) = fault

-- The first loop: the sum of the counts.
unfoldable pub total : List ℤ → Outcome ℕ
total [] = done 0
total (c ∷ counts) = do n ← count_of c; rest ← total counts; done (n + rest)

-- The loops that copy the rows one behind the other.
unfoldable pub copy_rows : Heap → List ℤ → List Ptr → Outcome (List ℤ)
copy_rows heap [] values = done []
copy_rows heap (c ∷ counts) [] = fault
copy_rows heap (c ∷ counts) (v ∷ values) = do
  n ← count_of c
  row ← read_cells heap v 0 n
  rest ← copy_rows heap counts values
  done (row ++ rest)

unfoldable pub handle_set_sub_array : Heap → Bucket → Message → Outcome Bucket
unfolding read_cells total copy_rows
handle_set_sub_array heap this (ref_two_dim m) = do
  counts ← read_cells heap m.counts 0 m.size
  size ← total counts
  values ← copy_rows heap counts m.values
  done (record this { final_data_size = size; final_data_values = values })
handle_set_sub_array heap this _ = fault

-- The switch. The tags 0, 1, 6 and 8 are for the root.
unfoldable pub reaction : Heap → ℤ → Reaction Bucket
reaction heap tag =
    if tag ==ℤ pos 2
    then handles handle_topology
    else if tag ==ℤ pos 3
    then handles handle_data_ref
    else if tag ==ℤ pos 4
    then handles handle_splitter
    else if tag ==ℤ pos 5
    then handles handle_get_sub_array
    else if tag ==ℤ pos 7
    then handles (handle_set_sub_array heap)
    else if tag ==ℤ pos 0
    then leaves
    else if tag ==ℤ pos 1
    then leaves
    else if tag ==ℤ pos 6
    then leaves
    else if tag ==ℤ pos 8
    then leaves
    else drops
