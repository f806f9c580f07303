-- ===== src/System/Delivery/Drop.antt =====
-- `dropMsg`: what is on its way afterwards.
use francois_gingras_master.Common.{ℕ, ◌≡◌, List, [], ◌∷◌, done}
use francois_gingras_master.Queue.{Queue}
use francois_gingras_master.Queue.Dequeue.{dequeue-Delivers}
use francois_gingras_master.Messages.Message.{Message}
use francois_gingras_master.Messages.Message.Law.{message_law}
use francois_gingras_master.System.{
  Shared, Process, with_segment, dequeue_entry, drop_msg, found_at,
}
use francois_gingras_master.System.Delivery.{Carries, IsMapped, acquire_mapped}

-- What is left of a list of messages when the oldest is gone.
abbrev pub rest_of : List Message → List Message
rest_of [] = []
rest_of (n ∷ ns) = ns

-- `dropMsg` of a process that has mapped the task's queue takes the oldest message off its way, if
-- there is one, and keeps the process's table.
pub drop_msg-Carries :
    (s : Shared) (p : Process) (at base t : ℕ) (ns : List Message)
    → IsMapped p t base
    → Carries (s.segments t) ns
    → (q : Queue Message) × (drop_msg s p at t ≡ done (with_segment s t q, p))
      × Carries q (rest_of ns)
unfolding drop_msg dequeue_entry
drop_msg-Carries s p at base t [] mapped ([], h, im) = (
  s.segments t,
  rw (
    acquire_mapped s p t at base mapped,
    mapped,
    (dequeue-Delivers message_law base (s.segments t) [] h).0,
    found_at,
  ),
  ([], h, im),
)
drop_msg-Carries s p at base t [] mapped (m ∷ ms, h, im) = absurd im
drop_msg-Carries s p at base t (n ∷ ns) mapped ([], h, im) = absurd im
drop_msg-Carries s p at base t (n ∷ ns) mapped (m ∷ ms, h, (a, e, r, im)) =
    let (pos, q, d, _, _, l, h') = dequeue-Delivers message_law base (s.segments t) (m ∷ ms) h in
    (q, rw (acquire_mapped s p t at base mapped, mapped, d, found_at, l), (ms, h', im))
