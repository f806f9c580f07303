-- ===== src/Tests/Messaging.antt =====
-- The theorems on messages and on the system.
use francois_gingras_master.Common.{◌≡◌, ◌⊎◌, refl, true, false, pos, List, [], ◌∷◌, done, arith}
use francois_gingras_master.Queue.{Queue, create_queue}
use francois_gingras_master.Queue.Invariant.{create_queue-Holds}
use francois_gingras_master.Queue.Enqueue.{has_room}
use francois_gingras_master.Messages.IntArrayMsg.{IntArrayMsg}
use francois_gingras_master.Messages.IntArrayMsg
use francois_gingras_master.Messages.Header.{Place, null_array}
use francois_gingras_master.Messages.Message.{Message, int_array, clone}
use francois_gingras_master.Messages.Message.Law.{IsReady, image, after, rebound, message_law}
use francois_gingras_master.Messages.Message.Transit.{copied, clone-rebound-image}
use francois_gingras_master.Messages.Build.{int_array_built, Built-IsReady}
use francois_gingras_master.System.{with_segment, send, receive}
use francois_gingras_master.System.Delivery.{Carries, send-Carries, receive-Carries}
use francois_gingras_master.System.History.{Event, sends, polls, Log, AllKept, run, run-AllKept}
use francois_gingras_master.Tests.Samples.{
  ping, ping-IsReady, numbers, numbers-IsReady, one_message, one_message-Carries, everywhere,
  mapped_three,
}

abbrev start : Log
start = record { shared = everywhere create_queue; accepted = λ t. []; received = λ t. [] }

start-AllKept : AllKept start
start-AllKept t = ([], ([], create_queue-Holds message_law, tt), refl)

abbrev events : List Event
events = sends mapped_three 0 ping 3 ∷ sends mapped_three 0 numbers 3 ∷ polls mapped_three 0 3 ∷ []

run-AllKept_example : (g' : Log) × (run start events ≡ done g') × AllKept g'
run-AllKept_example =
    run-AllKept start events start-AllKept
      ((4096, refl, ping-IsReady), ((4096, refl, numbers-IsReady), ((4096, refl), tt)))

clone-rebound-image_example : clone 8248 (rebound 8248 (image numbers 4152)) ≡ done (copied numbers)
clone-rebound-image_example = clone-rebound-image numbers 4152 8248 numbers-IsReady

abbrev block : IntArrayMsg
block = record {
  header = record { tag = pos 0; tid = 0; msg_size = 0; methods = false };
  size = 0;
  values = null_array;
}

abbrev built : IntArrayMsg
built = record {
  header = record { tag = pos 2; tid = 5; msg_size = 96; methods = true };
  size = 2;
  values = record { place = Place.owned; items = pos 4 ∷ pos 1 ∷ [] };
}

set_values_run :
    IntArrayMsg.set_values (IntArrayMsg.create (pos 2) block) 2 (pos 4 ∷ pos 1 ∷ []) ≡ done built
unfolding IntArrayMsg.set_values IntArrayMsg.create
set_values_run = refl

Built-IsReady_example : IsReady (int_array built)
Built-IsReady_example =
    Built-IsReady (int_array built)
      (int_array_built (pos 2) block 2 (pos 4 ∷ pos 1 ∷ []) built (omega arith) set_values_run)

send-Carries_example :
    ((has_room one_message 96 ≡ true)
      × (q : Queue Message) × (send (everywhere one_message) mapped_three 0 numbers 3
          ≡ done (true, after numbers, with_segment (everywhere one_message) 3 q, mapped_three))
      × Carries q (ping ∷ numbers ∷ []))
    ⊎ ((has_room one_message 96 ≡ false)
        × (send (everywhere one_message) mapped_three 0 numbers 3
            ≡ done (
              false,
              numbers,
              with_segment (everywhere one_message) 3 one_message,
              mapped_three,
            )))
send-Carries_example =
    send-Carries (everywhere one_message) mapped_three 0 4096 numbers 3 (ping ∷ []) refl
      one_message-Carries numbers-IsReady

receive-Carries_example :
    (q : Queue Message) × (receive (everywhere one_message) mapped_three 3
      ≡ done (copied ping, with_segment (everywhere one_message) 3 q))
    × Carries q []
receive-Carries_example =
    receive-Carries (everywhere one_message) mapped_three 4096 3 ping [] refl one_message-Carries
