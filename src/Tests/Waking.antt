-- ===== src/Tests/Waking.antt =====
-- The theorems on sleeping tasks and on the life of the system.
use francois_gingras_master.Common.{
  ℕ, ◌≤◌, ◌<◌, ◌≡◌, ◌⊎◌, refl, Bool, true, false, none, some, List, set, replicate, get_elem?, done,
  fault, exits, arith,
}
use francois_gingras_master.Queue.{create_queue}
use francois_gingras_master.Messages.Message.{Message}
use francois_gingras_master.Messages.Message.Law.{after}
use francois_gingras_master.System.{Shared, Process, send}
use francois_gingras_master.System.Repository.{Repository}
use francois_gingras_master.System.Waking.{
  Sleepers, notify_test, go_to_sleep, signal_round, loop_wait_signal,
}
use francois_gingras_master.System.Waking.Live.{notify-send-signal_round}
use francois_gingras_master.System.Lifecycle.{
  Answers, system_create, system_create-never, destroy, destroy-unlinks,
}
use francois_gingras_master.Tests.Samples.{
  ping, ping-IsReady, everywhere, mapped_three, nothing-Carries, blank_queue-room, one_message,
}

abbrev all_awake : Sleepers
all_awake = record { shutdown_signal = 0; asleep = λ t. false }

notify-send-signal_round_example :
    (empty : Bool) × (s' : Shared) × (w' : Sleepers) × (notify_test
        (everywhere create_queue)
        mapped_three
        0
        3
      ≡ done (empty, mapped_three))
    × (send (everywhere create_queue) mapped_three 0 ping 3
        ≡ done (true, after ping, s', mapped_three))
    × ((go_to_sleep all_awake 3 empty).asleep 3 ≡ true)
    × (signal_round s' mapped_three (go_to_sleep all_awake 3 empty) ≡ done w')
    × (w'.asleep 3 ≡ false)
notify-send-signal_round_example =
    notify-send-signal_round (everywhere create_queue) mapped_three mapped_three mapped_three
      all_awake ping 3 0 0 4096 4096 4096 refl refl refl (omega arith) (omega arith) nothing-Carries
      ping-IsReady (blank_queue-room 72 (omega arith))

abbrev willing : Answers
willing = record {
  shm_open = true;
  ftruncate = true;
  mmap = true;
  malloc = true;
  task_id_lock = true;
  sleepers_lock = true;
  repository_mutex = true;
  thread = true;
}

abbrev fresh : Repository
fresh = record { task_name = replicate 30 (replicate 100 0); task_has_name = replicate 100 0 }

system_create-never_example :
    (system_create willing fresh ≡ exits) ⊎ (system_create willing fresh ≡ fault)
system_create-never_example = system_create-never willing fresh refl refl

destroy-unlinks_example :
    ((p : Process) (at : ℕ) (msg : Message) (t : ℕ)
      → 1 ≤ t
      → t < 4
      → get_elem? p.task_table t ≡ some none
      → send (destroy (everywhere one_message) all_awake).0 p at msg t
        ≡ done (
          false,
          msg,
          (destroy (everywhere one_message) all_awake).0,
          record { task_table = set p.task_table t none },
        ))
    × ((t : ℕ) → (t < 1) ⊎ (4 ≤ t) → (destroy (everywhere one_message) all_awake).0.linked t ≡ true)
    × ((destroy (everywhere one_message) all_awake).0.segments ≡ λ t. one_message)
    × ((states : List Shared) (p : Process)
        → loop_wait_signal states p (destroy (everywhere one_message) all_awake).1
          ≡ done (destroy (everywhere one_message) all_awake).1)
destroy-unlinks_example = destroy-unlinks (everywhere one_message) all_awake
