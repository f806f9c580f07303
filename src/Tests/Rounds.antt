-- ===== src/Tests/Rounds.antt =====
-- The theorems on the messages of the sample sort.
use francois_gingras_master.Common.{
  true, false, ◌≡◌, refl, pos, [], ◌∷◌, ◌++◌, map, length, done, arith,
}
use francois_gingras_master.Queue.{Queue}
use francois_gingras_master.Queue.Invariant.{straight}
use francois_gingras_master.Queue.Memory.{load}
use francois_gingras_master.Messages.TopologyMsg.{TopologyMsg}
use francois_gingras_master.Messages.RefIntArrayMsg.{RefIntArrayMsg}
use francois_gingras_master.Messages.IntArrayMsg.{IntArrayMsg}
use francois_gingras_master.Messages.RefTwoDimIntArrayMsg.{RefTwoDimIntArrayMsg}
use francois_gingras_master.Messages.Header.{Heap, Place}
use francois_gingras_master.Messages.Message.{Message, topology, ref_int_array, int_array}
use francois_gingras_master.Messages.Message.Law.{IsReady, image}
use francois_gingras_master.System.{Shared}
use francois_gingras_master.System.Delivery.{Carries}
use francois_gingras_master.Tasks.Dispatch.{served, receives}
use francois_gingras_master.Tasks.BucketTask.Receive.{Bucket, handle_set_sub_array}
use francois_gingras_master.Tasks.BucketTask.Receive
use francois_gingras_master.Tasks.BucketTask.Partition.{distribute}
use francois_gingras_master.Tasks.BucketTask.Rounds.{Refers, receives-phase_one}
use francois_gingras_master.Tasks.BucketTask.RoundTwo.{build_ref_to_root, build_ref_to_root-Refers}
use francois_gingras_master.Tasks.SampleSortTask.Threads.Start.{data_refs_whole}
use mathlib.Core.List.{flatten}
use francois_gingras_master.Messages.Header.{Ptr}
use francois_gingras_master.Common.{ℕ, ◌≤◌, ◌+◌, get_elem?, some}
use francois_gingras_master.Tasks.SampleSortTask.RoundOne.{part_of, data_refs}
use francois_gingras_master.Tests.Samples.{everywhere, mapped_three}

abbrev topo : TopologyMsg
topo = record {
  header = record { tag = pos 2; tid = 4; msg_size = 112; methods = true };
  bucket_count = 2;
  root_id = 1;
  sample_size = pos 2;
  data_size = pos 4;
  bucket_ids = record { place = Place.owned; items = 3 ∷ 2 ∷ [] };
}

abbrev ref : RefIntArrayMsg
ref = record {
  header = record { tag = pos 3; tid = 3; msg_size = 88; methods = true };
  size = 2;
  values = record { block = 0; offset = 2 };
}

abbrev split : IntArrayMsg
split = record {
  header = record { tag = pos 4; tid = 5; msg_size = 96; methods = true };
  size = 2;
  values = record { place = Place.owned; items = pos 5 ∷ pos 9 ∷ [] };
}

abbrev phase_one : Queue Message
phase_one = record {
  mem =
      (56, image (topology topo) 4152)
      ∷ (168, image (ref_int_array ref) 4264)
      ∷ (256, image (int_array split) 4352)
      ∷ [];
  head = 56;
  tail = 352;
  size = 3;
  rollover_position = 4294967295;
}

topo-IsReady : IsReady (topology topo)
topo-IsReady = record {
  sound = record { classed = refl; sized = omega arith };
  bound = refl;
  small = omega arith;
  owns = omega arith;
}

ref-IsReady : IsReady (ref_int_array ref)
ref-IsReady = record {
  sound = record { classed = refl; sized = omega arith };
  bound = refl;
  small = omega arith;
  owns = tt;
}

split-IsReady : IsReady (int_array split)
split-IsReady = record {
  sound = record { classed = refl; sized = omega arith };
  bound = refl;
  small = omega arith;
  owns = omega arith;
}

phase_one-Carries : Carries phase_one (topology topo ∷ ref_int_array ref ∷ int_array split ∷ [])
unfolding load image
phase_one-Carries = (
  image (topology topo) 4152 ∷ image (ref_int_array ref) 4264 ∷ image (int_array split) 4352 ∷ [],
  straight refl (omega arith) (omega arith)
      (
        refl,
        record { classed = refl; sized = omega arith },
        (
          refl,
          record { classed = refl; sized = omega arith },
          (refl, record { classed = refl; sized = omega arith }, refl),
        ),
      )
      refl,
  (4152, refl, topo-IsReady, (4264, refl, ref-IsReady, (4352, refl, split-IsReady, tt))),
)

-- The heap holds the data: 7, 4, 6 and 2.
abbrev heap : Heap
heap = (pos 7 ∷ pos 4 ∷ pos 6 ∷ pos 2 ∷ []) ∷ []

abbrev bucket : Bucket
bucket = record {
  task_id = 3;
  bucket_count = 0;
  bucket_ids = [];
  root_id = 0;
  data_ref = record { block = 0; offset = 0 };
  data_size = 0;
  splitters = [];
  splitter_size = 0;
  final_data_values = [];
  final_data_size = 0;
}

abbrev pub informed : Bucket
informed = record bucket {
  bucket_count = 2;
  bucket_ids = 3 ∷ 2 ∷ [];
  root_id = 1;
  data_size = 2;
  data_ref = record { block = 0; offset = 2 };
  splitter_size = 2;
  splitters = pos 5 ∷ pos 9 ∷ [];
}

receives-phase_one_example :
    (s' : Shared) × (receives
        (Receive.reaction heap)
        3
        bucket
        (everywhere phase_one)
        mapped_three
        0
        3
      ≡ done (served informed s' mapped_three))
    × Carries (s'.segments 3) []
receives-phase_one_example =
    receives-phase_one heap bucket (everywhere phase_one) mapped_three 0 4096 3 topo ref split []
      refl phase_one-Carries refl refl refl (omega arith) (omega arith)

abbrev pub blank : RefTwoDimIntArrayMsg
blank = record {
  header = record { tag = pos 0; tid = 0; msg_size = 0; methods = false };
  size = 0;
  counts = record { block = 0; offset = 0 };
  values = [];
}

build_ref_to_root-Refers_example :
    (m : RefTwoDimIntArrayMsg) × (new : Heap) × (build_ref_to_root (pos 0) heap informed blank
      ≡ done (m, heap ++ new))
    × (m.tag ≡ pos 6)
    × Refers
        (heap ++ new)
        m
        (map length (distribute (pos 5 ∷ pos 9 ∷ []) (pos 6 ∷ pos 2 ∷ []) ([] ∷ [] ∷ [])))
        (distribute (pos 5 ∷ pos 9 ∷ []) (pos 6 ∷ pos 2 ∷ []) ([] ∷ [] ∷ []))
build_ref_to_root-Refers_example =
    build_ref_to_root-Refers (pos 0) heap informed blank (pos 7 ∷ pos 4 ∷ pos 6 ∷ pos 2 ∷ [])
      (pos 5) (pos 9 ∷ []) refl (omega arith) refl refl

data_refs_whole_example :
    let cells = pos 7 ∷ pos 4 ∷ pos 6 ∷ [] in
    let refs = data_refs 2 1 3 (record { block = 0; offset = 0 }) 0 in
    (length refs ≡ 2)
    × ((i : ℕ) (r : ℕ × Ptr) → get_elem? refs i ≡ some r → (r.1.block ≡ 0) × (r.1.offset + r.0 ≤ 3))
    × (flatten (map (part_of cells) refs) ≡ cells)
data_refs_whole_example =
    data_refs_whole (pos 7 ∷ pos 4 ∷ pos 6 ∷ []) 1 (record { block = 0; offset = 0 }) refl
