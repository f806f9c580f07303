-- ===== src/Tests/RoundThree.antt =====
-- The theorems on what the root of the sample sort gets and refers on.
use francois_gingras_master.Common.{true, ◌≡◌, refl, some, pos, [], ◌∷◌, done, arith}
use francois_gingras_master.Queue.{Queue}
use francois_gingras_master.Queue.Invariant.{straight}
use francois_gingras_master.Queue.Memory.{load}
use francois_gingras_master.Messages.RefTwoDimIntArrayMsg.{RefTwoDimIntArrayMsg}
use francois_gingras_master.Messages.Header.{Heap}
use francois_gingras_master.Messages.Message.{Message, ref_two_dim}
use francois_gingras_master.Messages.Message.Law.{IsReady, image}
use francois_gingras_master.System.{Shared}
use francois_gingras_master.System.Delivery.{Carries}
use francois_gingras_master.Tasks.Dispatch.{served, receives}
use francois_gingras_master.Tasks.BucketTask.Receive.{handle_set_sub_array}
use francois_gingras_master.Tasks.BucketTask.{rebuild}
use francois_gingras_master.Tasks.BucketTask.Rounds.{Refers}
use francois_gingras_master.Tasks.SampleSortTask.{column}
use francois_gingras_master.Tasks.SampleSortTask.Receive.{
  SampleSort, clear_replies, build_ref_to_bucket, reaction,
}
use francois_gingras_master.Tasks.SampleSortTask.Rounds.{receives-replies}
use francois_gingras_master.Tasks.SampleSortTask.RoundThree.{build_ref_to_bucket-column}
use francois_gingras_master.Tests.Samples.{everywhere, mapped_three}
use francois_gingras_master.Tests.Rounds.{informed, blank}

-- A reply whose counts are 1 and 1, and whose sub-arrays are 2 and 6.
abbrev reply : RefTwoDimIntArrayMsg
reply = record {
  header = record { tag = pos 6; tid = 7; msg_size = 72; methods = true };
  size = 2;
  counts = record { block = 0; offset = 0 };
  values = record { block = 1; offset = 0 } ∷ record { block = 2; offset = 0 } ∷ [];
}

abbrev reply_heap : Heap
reply_heap = (pos 1 ∷ pos 1 ∷ []) ∷ (pos 2 ∷ []) ∷ (pos 6 ∷ []) ∷ []

reply-Refers : Refers reply_heap reply (1 ∷ 1 ∷ []) ((pos 2 ∷ []) ∷ (pos 6 ∷ []) ∷ [])
reply-Refers = record {
  counted = refl;
  first = refl;
  sized = refl;
  rows_at = (refl, refl, (refl, refl, tt));
}

second_column :
    column 1 ((1 ∷ 1 ∷ [], (pos 2 ∷ []) ∷ (pos 6 ∷ []) ∷ []) ∷ [])
    ≡ done (1 ∷ [], (pos 6 ∷ []) ∷ [])
unfolding column
second_column = refl

rebuilt : rebuild (1 ∷ []) ((pos 6 ∷ []) ∷ []) ≡ done (pos 6 ∷ [])
unfolding rebuild
rebuilt = refl

build_ref_to_bucket-column_example :
    (m : RefTwoDimIntArrayMsg) × (heap' : Heap) × (build_ref_to_bucket reply_heap 1
        (some reply ∷ [])
        blank
      ≡ done (m, heap'))
    × (m.tag ≡ pos 7)
    × Refers heap' m (1 ∷ []) ((pos 6 ∷ []) ∷ [])
    × (handle_set_sub_array heap' informed (ref_two_dim m)
        ≡ done (record informed { final_data_size = 1; final_data_values = pos 6 ∷ [] }))
build_ref_to_bucket-column_example =
    build_ref_to_bucket-column reply_heap 1 (reply ∷ [])
      ((1 ∷ 1 ∷ [], (pos 2 ∷ []) ∷ (pos 6 ∷ []) ∷ []) ∷ []) (1 ∷ []) ((pos 6 ∷ []) ∷ [])
      (pos 6 ∷ []) blank informed (reply-Refers, tt) second_column rebuilt

reply-IsReady : IsReady (ref_two_dim reply)
reply-IsReady = record {
  sound = record { classed = refl; sized = omega arith };
  bound = refl;
  small = omega arith;
  owns = tt;
}

abbrev replied : Queue Message
replied = record {
  mem = (56, image (ref_two_dim reply) 4152) ∷ [];
  head = 56;
  tail = 128;
  size = 1;
  rollover_position = 4294967295;
}

replied-Carries : Carries replied (ref_two_dim reply ∷ [])
unfolding load image
replied-Carries = (
  image (ref_two_dim reply) 4152 ∷ [],
  straight refl (omega arith) (omega arith)
      (refl, record { classed = refl; sized = omega arith }, refl) refl,
  (4152, refl, reply-IsReady, tt),
)

abbrev root : SampleSort
root = record {
  task_id = 3;
  k = pos 1;
  data_ref = record { block = 0; offset = 0 };
  size = 4;
  buckets_values_arr = [];
  buckets_values_arr_count = 0;
}

receives-replies_example :
    (s' : Shared) × (receives reaction 1
        (clear_replies 1 root)
        (everywhere replied)
        mapped_three
        0
        3
      ≡ done (
          served
            (record root { buckets_values_arr = some reply ∷ []; buckets_values_arr_count = 1 })
            s'
            mapped_three))
    × Carries (s'.segments 3) []
receives-replies_example =
    receives-replies root (everywhere replied) mapped_three 0 4096 3 (reply ∷ []) [] refl
      replied-Carries (refl, tt)
