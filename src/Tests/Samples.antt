-- ===== src/Tests/Samples.antt =====
-- Messages, queues and processes for the tests.
use francois_gingras_master.Common.{
  ℕ, ◌≤◌, ◌≡◌, Option, length, replicate, length-replicate, refl, true, pos, none, some, [], ◌∷◌,
  minus_one, arith,
}
use francois_gingras_master.Queue.{Queue, create_queue}
use francois_gingras_master.Queue.Enqueue.{has_room}
use francois_gingras_master.Queue.Invariant.{Holds, straight, create_queue-Holds}
use francois_gingras_master.Queue.Memory.{load}
use francois_gingras_master.Messages.Header.{Place}
use francois_gingras_master.Messages.Message.{Message, bar, int_array}
use francois_gingras_master.Messages.Message.Law.{IsReady, image, message_law}
use francois_gingras_master.System.{Shared, Process}
use francois_gingras_master.System.Delivery.{Carries}

abbrev pub ping : Message
ping = bar (record {
  header = record { tag = pos 7; tid = 1; msg_size = 72; methods = true };
  value = pos 5;
})

pub ping-IsReady : IsReady ping
ping-IsReady = record {
  sound = record { classed = refl; sized = omega arith };
  bound = refl;
  small = omega arith;
  owns = tt;
}

abbrev pub numbers : Message
numbers = int_array (record {
  header = record { tag = pos 2; tid = 5; msg_size = 96; methods = true };
  size = 2;
  values = record { place = Place.owned; items = pos 4 ∷ pos 1 ∷ [] };
})

pub numbers-IsReady : IsReady numbers
numbers-IsReady = record {
  sound = record { classed = refl; sized = omega arith };
  bound = refl;
  small = omega arith;
  owns = omega arith;
}

-- A queue that one process has put a message into.
abbrev pub one_message : Queue Message
one_message = record {
  mem = (56, image ping 4152) ∷ [];
  head = 56;
  tail = 128;
  size = 1;
  rollover_position = minus_one;
}

pub one_message-Holds : Holds message_law one_message (image ping 4152 ∷ [])
unfolding load image
one_message-Holds =
    straight refl (omega arith) (omega arith)
      (refl, record { classed = refl; sized = omega arith }, refl) refl

-- A queue that one message fills almost.
abbrev pub huge : Message
huge = bar (record {
  header = record { tag = pos 7; tid = 1; msg_size = 999934; methods = true };
  value = pos 5;
})

abbrev pub crowded : Queue Message
crowded = record {
  mem = (56, image huge 4152) ∷ [];
  head = 56;
  tail = 999990;
  size = 1;
  rollover_position = minus_one;
}

pub crowded-Holds : Holds message_law crowded (image huge 4152 ∷ [])
unfolding load image
crowded-Holds =
    straight refl (omega arith) (omega arith)
      (refl, record { classed = refl; sized = omega arith }, refl) refl

abbrev pub everywhere : Queue Message → Shared
everywhere q = record { next_task_id = 4; segments = λ t. q; linked = λ t. true }

abbrev pub mapped_three : Process
mapped_three = record { task_table = none ∷ none ∷ none ∷ some 4096 ∷ [] }

pub one_message-Carries : Carries one_message (ping ∷ [])
one_message-Carries = (image ping 4152 ∷ [], one_message-Holds, (4152, refl, ping-IsReady, tt))

-- The tasks 1 and 3 are mapped.
abbrev pub mapped_both : Process
mapped_both = record { task_table = none ∷ some 8192 ∷ none ∷ some 4096 ∷ [] }

pub nothing-Carries : Carries create_queue []
nothing-Carries = ([], create_queue-Holds message_law, tt)

pub blank_queue-room : (n : ℕ) → n ≤ 136 → has_room {M = Message} create_queue n ≡ true
unfolding create_queue
blank_queue-room n h = ground arith

pub blank_entries : (n : ℕ) → length (replicate {A = Option ℕ} n none) ≡ n
blank_entries n = length-replicate n none
