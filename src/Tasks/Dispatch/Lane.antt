-- ===== src/Tasks/Dispatch/Lane.antt =====
-- One call of `receive` on a queue that has not reached the end of its segment.
use francois_gingras_master.Common.{ℕ, ◌≡◌, refl, false, ℤ, negsuc, List, ◌∷◌, Outcome, done, leb_ℤ}
use francois_gingras_master.Queue.{Queue}
use francois_gingras_master.Messages.Message.{Message, header}
use francois_gingras_master.Messages.Message.Transit.{copied}
use francois_gingras_master.System.{Shared, Process, with_segment}
use francois_gingras_master.System.Delivery.{IsMapped, get_msg_tag-Carries}
use francois_gingras_master.System.Delivery.Lane.{Bears, Bears-Carries, receive-Bears}
use francois_gingras_master.Tasks.Dispatch.{Reaction, handles, react, receive_by, served}

module _ {S : Type 0} where
  -- The oldest message is handled and gone.
  pub receive_by-Bears :
      (reaction : ℤ → Reaction S) (handler : S → Message → Outcome S) (this this' : S) (s : Shared)
      (p : Process) (at base t : ℕ) (n : Message) (ns : List Message) (used : ℕ)
      → IsMapped p t base
      → Bears (s.segments t) (n ∷ ns) used
      → leb_ℤ (header n).tag (negsuc 0) ≡ false
      → reaction (header n).tag ≡ handles handler
      → handler this (copied n) ≡ done this'
      → (q : Queue Message) × (receive_by reaction this s p at t
          ≡ done (served this' (with_segment s t q) p))
        × Bears q ns used
  unfolding receive_by react
  receive_by-Bears reaction handler this this' s p at base t n ns used mapped b tagged e h =
      let tag =
        get_msg_tag-Carries s p at base t (n ∷ ns) mapped
          (Bears-Carries (s.segments t) (n ∷ ns) used b) in
      let (q, got, b') = receive-Bears s p base t n ns used mapped b in
      (q, rw (tag, tagged, e, got, h) refl, b')
