-- ===== src/Tests/Queues.antt =====
-- The theorems on queues.
use francois_gingras_master.Common.{◌≡◌, refl, false, List, [], ◌∷◌, done}
use francois_gingras_master.Queue.{create_queue, enqueue}
use francois_gingras_master.Queue.Invariant.{create_queue-Holds}
use francois_gingras_master.Queue.Enqueue.{Accepts}
use francois_gingras_master.Queue.Enqueue.Accept.{enqueue-Holds, enqueue_refuses}
use francois_gingras_master.Queue.Dequeue.{Delivers, dequeue-Delivers}
use francois_gingras_master.Queue.Fifo.{Op, put, get, Reply, run, Trace, run-Trace}
use francois_gingras_master.Messages.Message.{Message, message_api}
use francois_gingras_master.Messages.Message.Law.{image, message_law}
use francois_gingras_master.Tests.Samples.{
  ping, ping-IsReady, numbers, numbers-IsReady, one_message, one_message-Holds, crowded,
  crowded-Holds, huge,
}

abbrev calls : List (Op Message)
calls = put 4096 ping ∷ put 8192 numbers ∷ get 4096 ∷ get 4096 ∷ get 4096 ∷ []

run-Trace_example :
    (rs : List (Reply Message)) × (run message_api create_queue calls ≡ done rs)
    × Trace message_law [] calls rs
run-Trace_example =
    run-Trace message_law create_queue [] calls (create_queue-Holds message_law)
      (ping-IsReady, (numbers-IsReady, tt))

enqueue-Holds_example : Accepts message_law 4096 one_message (image ping 4152 ∷ []) numbers
enqueue-Holds_example =
    enqueue-Holds message_law 4096 one_message (image ping 4152 ∷ []) numbers one_message-Holds
      numbers-IsReady refl

enqueue_refuses_example : enqueue message_api 4096 crowded ping ≡ done (false, ping, crowded)
enqueue_refuses_example =
    enqueue_refuses message_law 4096 crowded (image huge 4152 ∷ []) ping crowded-Holds ping-IsReady
      refl

dequeue-Delivers_example : Delivers message_law 8192 one_message (image ping 4152 ∷ [])
dequeue-Delivers_example =
    dequeue-Delivers message_law 8192 one_message (image ping 4152 ∷ []) one_message-Holds
