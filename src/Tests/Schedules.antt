-- ===== src/Tests/Schedules.antt =====
-- The theorems on the threads of a sample sort, for two buckets and three values.
use francois_gingras_master.Common.{
  ℕ, zero, suc, ◌<◌, ◌≡◌, ◌≢◌, ◌⊎◌, inl, inr, refl, none, some, pos, true, false, List, [], ◌∷◌,
  replicate, length-replicate, done, arith,
}
use mathlib.Core.List.{flatten}
use francois_gingras_master.Queue.{create_queue}
use francois_gingras_master.Queue.Lane.{create_queue-Lane}
use francois_gingras_master.Messages.Header.{Header, Heap, Place, Ptr}
use francois_gingras_master.Messages.Message.Law.{message_law}
use francois_gingras_master.System.{Shared, Process}
use francois_gingras_master.Tasks.BucketTask.Receive.{Bucket}
use francois_gingras_master.Tasks.SampleSortTask.Receive.{SampleSort}
use francois_gingras_master.Tasks.SampleSortTask.Threads.{Machine, Threads, Turn, begin, run}
use francois_gingras_master.Tasks.SampleSortTask.Threads.Unhurried.{unhurried}
use francois_gingras_master.Tasks.SampleSortTask.Threads.Races.{ComesToRace}
use francois_gingras_master.Tasks.SampleSortTask.Threads.Runs.{Has, IsRound, AreRounds}
use francois_gingras_master.Tasks.SampleSortTask.Threads.Complete.{
  IsPrepared, IsSortedBy, rounds-IsSortedBy, run-IsSortedBy, unhurried-IsSortedBy,
}
use francois_gingras_master.Tests.Sorting.{
  library, input, positions, positions_below, input-IsModerate,
}

abbrev unset : Header
unset = record { tag = pos 0; tid = 0; msg_size = 0; methods = false }

abbrev nowhere : Ptr
nowhere = record { block = 0; offset = 0 }

abbrev machine : Machine
machine = record {
  lib = library;
  at = λ t. 4096;
  junk = pos 9;
  topology_memory = record {
    header = unset;
    bucket_count = 0;
    root_id = 0;
    sample_size = pos 0;
    data_size = pos 0;
    bucket_ids = record { place = Place.owned; items = [] };
  };
  reference_memory = record { header = unset; size = 0; values = nowhere };
  splitters_memory = record {
    header = unset;
    size = 0;
    values = record { place = Place.owned; items = [] };
  };
  signal_memory = record { header = unset; success = pos 0 };
  reply_memory = record { header = unset; size = 0; counts = nowhere; values = [] };
}

-- The root has the id 1, the buckets will have 2 and 3.
abbrev sorter : SampleSort
sorter = record {
  task_id = 1;
  k = pos 2;
  data_ref = nowhere;
  size = 3;
  buckets_values_arr = [];
  buckets_values_arr_count = 0;
}

abbrev blank : Bucket
blank = record {
  task_id = 0;
  bucket_count = 0;
  bucket_ids = [];
  root_id = 0;
  data_ref = nowhere;
  data_size = 0;
  splitters = [];
  splitter_size = 0;
  final_data_values = [];
  final_data_size = 0;
}

abbrev memory : Heap
memory = input ∷ []

abbrev host : Shared
host = record { next_task_id = 2; segments = λ t. create_queue; linked = λ t. true }

abbrev mapped_one : Process
mapped_one = record { task_table = none ∷ some 4096 ∷ replicate 98 none }

mapped_one-IsPrepared : IsPrepared machine 1 positions input sorter memory host mapped_one 56
mapped_one-IsPrepared = record {
  told = refl;
  block = refl;
  whole = refl;
  sized = refl;
  drawn = length-replicate {A = ℕ} 1500 1;
  within = positions_below 1500;
  moderate = input-IsModerate;
  long = refl;
  enough = omega arith;
  own = omega arith;
  mapped = refl;
  waiting = ([], create_queue-Lane message_law, tt);
  roomy = omega arith;
}

abbrev each_once : List Turn
each_once = Turn.root ∷ Turn.bucket 0 ∷ Turn.bucket 1 ∷ []

each_once-IsRound : IsRound 1 each_once
each_once-IsRound = (inl refl, there)
  where
    there : (i : ℕ) → i < 2 → Has (Turn.bucket i) each_once
    there zero h = inr (inl refl)
    there (suc zero) h = inr (inr (inl refl))
    there (suc (suc i)) h = absurd (omega arith)

replicate-AreRounds : (n : ℕ) → AreRounds 1 (replicate n each_once)
replicate-AreRounds zero = tt
replicate-AreRounds (suc n) = (each_once-IsRound, replicate-AreRounds n)

rounds-IsSortedBy_example :
    (c : Threads) × (begin machine positions sorter blank memory host mapped_one ≡ done c)
    × (((c' : Threads) × (run machine (flatten (replicate 43 each_once)) c ≡ done c')
          × (c'.root.todo ≡ [])
          × IsSortedBy 1 input c')
        ⊎ ComesToRace machine (flatten (replicate 43 each_once)) c)
rounds-IsSortedBy_example =
    rounds-IsSortedBy machine 1 positions input sorter blank memory host mapped_one 56
      mapped_one-IsPrepared (replicate 43 each_once) (replicate-AreRounds 43) (omega arith)

abbrev four_turns : List Turn
four_turns = Turn.bucket 1 ∷ Turn.root ∷ Turn.root ∷ Turn.bucket 0 ∷ []

run-IsSortedBy_example :
    (c : Threads) × (begin machine positions sorter blank memory host mapped_one ≡ done c)
    × (((c' : Threads) × (run machine four_turns c ≡ done c')
          × ((c'.root.todo ≢ []) ⊎ IsSortedBy 1 input c'))
        ⊎ ComesToRace machine four_turns c)
run-IsSortedBy_example =
    run-IsSortedBy machine 1 positions input sorter blank memory host mapped_one 56
      mapped_one-IsPrepared four_turns

unhurried-IsSortedBy_example :
    (c : Threads) × (c' : Threads) × (begin machine positions sorter blank memory host mapped_one
      ≡ done c)
    × (run machine (unhurried 44 (flatten (replicate 43 each_once))) c ≡ done c')
    × (c'.root.todo ≡ [])
    × IsSortedBy 1 input c'
unhurried-IsSortedBy_example =
    unhurried-IsSortedBy machine 1 positions input sorter blank memory host mapped_one 56
      mapped_one-IsPrepared (replicate 43 each_once) (replicate-AreRounds 43) (omega arith)
