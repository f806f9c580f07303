-- ===== src/Tasks/SampleSortTask/Receive.antt =====
-- SampleSortTask.c: the state of the root, its handlers, the switch of its `receive`, and the
-- messages of the third round.
use francois_gingras_master.Common.{
  ℕ, ◌+◌, Option, none, some, ℤ, pos, List, [], ◌∷◌, ◌++◌, replicate, length, set, get_elem?,
  Outcome, done, fault, or_fault, ◌>>=◌, ◌==ℤ◌, if◌then◌else◌,
}
use francois_gingras_master.Messages.Header.{Heap, Ptr, deref}
use francois_gingras_master.Messages.BarMsg
use francois_gingras_master.Messages.RefIntArrayMsg
use francois_gingras_master.Messages.RefTwoDimIntArrayMsg.{RefTwoDimIntArrayMsg}
use francois_gingras_master.Messages.RefTwoDimIntArrayMsg
use francois_gingras_master.Messages.Message.{Message, bar, ref_int_array, ref_two_dim}
use francois_gingras_master.System.{Shared, Process, send}
use francois_gingras_master.Tasks.Dispatch.{Reaction, handles, leaves, drops}
use francois_gingras_master.Tasks.Spawn.{spawn}

-- `buckets_values_arr` is the array of K pointers; `none` is an entry that is not set.
pub record SampleSort : Type 0 where
  pub task_id : ℕ
  pub k : ℤ
  pub data_ref : Ptr
  pub size : ℕ
  pub buckets_values_arr : List (Option RefTwoDimIntArrayMsg)
  pub buckets_values_arr_count : ℕ

-- SampleSortTask_create: all but the id stays as `malloc` left it.
unfoldable pub create : SampleSort → Shared → Process → ℕ → Outcome (SampleSort × Shared × Process)
create memory s p at = do (id, s', p') ← spawn s p at; done (record memory { task_id = id }, s', p')

-- The handlers cast the message; one of another class is a fault.
unfoldable pub handle_bar : SampleSort → Message → Outcome SampleSort
handle_bar this (bar m) = done (record this { k = BarMsg.get_value m })
handle_bar this _ = fault

unfoldable pub handle_ref_int_array : SampleSort → Message → Outcome SampleSort
handle_ref_int_array this (ref_int_array m) =
    done (record this { size = RefIntArrayMsg.get_size m; data_ref = m.values })
handle_ref_int_array this _ = fault

-- A write behind the array is a fault.
unfoldable pub handle_sub_array : SampleSort → Message → Outcome SampleSort
handle_sub_array this (ref_two_dim m) = do
  old ← or_fault (get_elem? this.buckets_values_arr this.buckets_values_arr_count)
  done (record this {
    buckets_values_arr = set this.buckets_values_arr this.buckets_values_arr_count (some m);
    buckets_values_arr_count = this.buckets_values_arr_count + 1;
  })
handle_sub_array this _ = fault

-- The message is only reported.
unfoldable pub handle_done : SampleSort → Message → Outcome SampleSort
handle_done this msg = done this

-- The switch. The tags 2 to 5 and 7 are for the buckets.
unfoldable pub reaction : ℤ → Reaction SampleSort
reaction tag =
    if tag ==ℤ pos 0
    then handles handle_bar
    else if tag ==ℤ pos 1
    then handles handle_ref_int_array
    else if tag ==ℤ pos 6
    then handles handle_sub_array
    else if tag ==ℤ pos 8
    then handles handle_done
    else if tag ==ℤ pos 2
    then leaves
    else if tag ==ℤ pos 3
    then leaves
    else if tag ==ℤ pos 4
    then leaves
    else if tag ==ℤ pos 5
    then leaves
    else if tag ==ℤ pos 7
    then leaves
    else drops

-- Before the second round: a new array of K pointers.
unfoldable pub clear_replies : ℕ → SampleSort → SampleSort
clear_replies n this = record this {
  buckets_values_arr = replicate n none;
  buckets_values_arr_count = 0;
}

-- The inner loop of the third round: the counts and the pointers number ki of all replies.
unfoldable pub gather : Heap → ℕ → List (Option RefTwoDimIntArrayMsg) → Outcome (List ℤ × List Ptr)
gather heap ki [] = done ([], [])
gather heap ki (entry ∷ entries) = do
  m ← or_fault entry
  c ← deref heap m.counts ki
  v ← or_fault (get_elem? m.values ki)
  (cs, vs) ← gather heap ki entries
  done (c ∷ cs, v ∷ vs)

-- The message for bucket ki: the counts are in a new block, and so is the array of the pointers.
-- `memory` is the block that the message's constructor allocates.
unfoldable pub build_ref_to_bucket :
    Heap
    → ℕ
    → List (Option RefTwoDimIntArrayMsg)
    → RefTwoDimIntArrayMsg
    → Outcome (RefTwoDimIntArrayMsg × Heap)
build_ref_to_bucket heap ki entries memory = do
  (cs, vs) ← gather heap ki entries
  done (
    record (RefTwoDimIntArrayMsg.create (pos 7) memory) {
      size = length entries;
      counts = record { block = length heap; offset = 0 };
      values = vs;
    },
    heap ++ (cs ∷ []),
  )

-- The outer loop of the third round: a message to each bucket from number ki on.
unfoldable pub send_to_buckets :
    Heap
    → ℕ
    → List ℕ
    → List (Option RefTwoDimIntArrayMsg)
    → RefTwoDimIntArrayMsg
    → Shared
    → Process
    → (ℕ → ℕ)
    → Outcome (Heap × Shared × Process)
send_to_buckets heap ki [] entries memory s p at = done (heap, s, p)
send_to_buckets heap ki (bucket ∷ buckets) entries memory s p at = do
  (m, heap') ← build_ref_to_bucket heap ki entries memory
  (flag, msg, s', p') ← send s p (at bucket) (ref_two_dim m) bucket
  send_to_buckets heap' (ki + 1) buckets entries memory s' p' at
