-- ===== src/System/Delivery/Lane.antt =====
-- Messages on their way through a queue that has not reached the end of its segment.
use francois_gingras_master.Common.{ℕ, ◌+◌, ◌≤◌, ◌≡◌, true, List, [], ◌∷◌, ◌++◌, done}
use francois_gingras_master.Queue.{Queue}
use francois_gingras_master.Queue.Api.{q_size}
use francois_gingras_master.Queue.Lane.{Lane, Lane-Holds, enqueue-Lane, dequeue-Lane}
use francois_gingras_master.Messages.Message.{Message, header}
use francois_gingras_master.Messages.Message.Law.{IsReady, after, message_law}
use francois_gingras_master.Messages.Message.Transit.{copied, clone-rebound-image}
use francois_gingras_master.System.{
  Shared, Process, with_segment, send, receive, dequeue_entry, send_to, found_at,
}
use francois_gingras_master.System.Delivery.{Carries, Images, Images-snoc, IsMapped, acquire_mapped}

-- `Carries`, with a bound on what was written into the segment so far.
abbrev pub Bears : Queue Message → List Message → ℕ → Type 0
Bears q ns used = (ms : List Message) × Lane message_law q ms used × Images ms ns

pub Bears-Carries :
    (q : Queue Message) (ns : List Message) (used : ℕ) → Bears q ns used → Carries q ns
Bears-Carries q ns used (ms, l, im) = (ms, Lane-Holds message_law q ms used l, im)

-- A ready message that fits before the new bound is not refused.
pub send-Bears :
    (s : Shared) (p : Process) (at base : ℕ) (msg : Message) (t : ℕ) (ns : List Message)
    (used more : ℕ)
    → IsMapped p t base
    → Bears (s.segments t) ns used
    → IsReady msg
    → used + (header msg).msg_size ≤ more
    → more ≤ q_size
    → (q : Queue Message) × (send s p at msg t ≡ done (true, after msg, with_segment s t q, p))
      × Bears q (ns ++ (msg ∷ [])) more
unfolding send
send-Bears s p at base msg t ns used more mapped (ms, l, im) ready fits below =
    let (q, a, e, l') =
      enqueue-Lane message_law base (s.segments t) ms msg used more l ready fits below in
    (
      q,
      rw (acquire_mapped s p t at base mapped, mapped, send_to, e),
      (_, l', Images-snoc ms ns msg a ready im),
    )

pub receive-Bears :
    (s : Shared) (p : Process) (base t : ℕ) (n : Message) (ns : List Message) (used : ℕ)
    → IsMapped p t base
    → Bears (s.segments t) (n ∷ ns) used
    → (q : Queue Message) × (receive s p t ≡ done (copied n, with_segment s t q)) × Bears q ns used
unfolding receive dequeue_entry
receive-Bears s p base t n ns used mapped ([], l, im) = absurd im
receive-Bears s p base t n ns used mapped (m ∷ ms, l, (a, e, r, im)) =
    let (pos, q, d, here, l') = dequeue-Lane message_law base (s.segments t) m ms used l in
    (q, rw (mapped, d, found_at, here, e, clone-rebound-image n a (base + pos) r), (ms, l', im))
