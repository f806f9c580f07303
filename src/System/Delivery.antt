-- ===== src/System/Delivery.antt =====
-- What the system promises its tasks: a message that is sent to a task and taken in is received by
-- it once, whole, after those that were sent to it before.
pub mod Drop
pub mod Lane
use francois_gingras_master.Common.{
  ℕ, ◌+◌, ◌≡◌, ◌↔◌, refl, Bool, true, false, Bool-cases, ◌⊎◌, inl, inr, ℤ, negsuc, some, List, [],
  ◌∷◌, ◌++◌, get_elem?, done, ◌≢◌, ◌==◌, ==_self, arith,
}
use francois_gingras_master.Queue.{Queue}
use francois_gingras_master.Queue.Invariant.{Holds}
use francois_gingras_master.Queue.Enqueue.{has_room, place}
use francois_gingras_master.Queue.Enqueue.Accept.{enqueue-Holds, enqueue_refuses}
use francois_gingras_master.Queue.Dequeue.{dequeue-Delivers, is_empty-Holds}
use francois_gingras_master.Messages.Message.{Message, bar, header}
use francois_gingras_master.Messages.Message.Law.{IsReady, image, after, message_law}
use francois_gingras_master.Messages.Message.Transit.{copied, clone-rebound-image}
use francois_gingras_master.System.{
  Shared, Process, with_segment, check_q_and_acquire, send, receive, dequeue_entry, get_msg_tag,
  message_immediate, acquire_entry, send_to, found_at, tag_at, empty_at,
}

-- The stored messages are the images of the ones that were sent.
abbrev pub Images : List Message → List Message → Type 0
Images [] [] = Unit {0}
Images (m ∷ ms) (n ∷ ns) = (a : ℕ) × (m ≡ image n a) × IsReady n × Images ms ns
Images _ _ = ⊥

-- The messages that are on their way to a task, oldest first, as they were sent.
abbrev pub Carries : Queue Message → List Message → Type 0
Carries q ns = (ms : List Message) × Holds message_law q ms × Images ms ns

-- The process has mapped the task's segment, at this address.
abbrev pub IsMapped : Process → ℕ → ℕ → Type 0
IsMapped p t base = get_elem? p.task_table t ≡ some (some base)

-- Another task's segment stays.
pub segments-with_segment :
    (s : Shared) (t u : ℕ) (q : Queue Message)
    → t ≢ u
    → (with_segment s t q).segments u ≡ s.segments u
segments-with_segment s t u q other = let no : (u == t) ≡ false = ground arith in rw no refl

pub segments-with_segment_self :
    (s : Shared) (t : ℕ) (q : Queue Message) → (with_segment s t q).segments t ≡ q
segments-with_segment_self s t q = rw (==_self t) refl

Images-snoc :
    (ms ns : List Message) (n : Message) (a : ℕ)
    → IsReady n
    → Images ms ns
    → Images (ms ++ (image n a ∷ [])) (ns ++ (n ∷ []))
Images-snoc [] [] n a r h = (a, refl, r, tt)
Images-snoc [] (k ∷ ns) n a r h = absurd h
Images-snoc (m ∷ ms) [] n a r h = absurd h
Images-snoc (m ∷ ms) (k ∷ ns) n a r h = (h.0, h.1, h.2, Images-snoc ms ns n a r h.3)

-- A mapped entry stays as it is.
acquire_mapped :
    (s : Shared) (p : Process) (t at base : ℕ)
    → IsMapped p t base
    → check_q_and_acquire s p t at ≡ done p
unfolding check_q_and_acquire
acquire_mapped s p t at base h = rw (h, acquire_entry)

-- `send` of a ready message from a process that has mapped the queue: with room it returns 1, the message is the last
-- on its way and the sender's object is the one that `writeAt` leaves; without room it returns 0 and
-- changes nothing.
pub send-Carries :
    (s : Shared) (p : Process) (at base : ℕ) (msg : Message) (t : ℕ) (ns : List Message)
    → IsMapped p t base
    → Carries (s.segments t) ns
    → IsReady msg
    → ((has_room (s.segments t) (header msg).msg_size ≡ true)
        × (q : Queue Message) × (send s p at msg t ≡ done (true, after msg, with_segment s t q, p))
        × Carries q (ns ++ (msg ∷ [])))
      ⊎ ((has_room (s.segments t) (header msg).msg_size ≡ false)
          × (send s p at msg t ≡ done (false, msg, with_segment s t (s.segments t), p)))
unfolding send
send-Carries s p at base msg t ns mapped (ms, h, im) r =
    elim (Bool-cases (has_room (s.segments t) (header msg).msg_size)) [
      | inl room ↦
          let (q, e, h') = enqueue-Holds message_law base (s.segments t) ms msg h r room in
          inl (
            room,
            q,
            rw (acquire_mapped s p t at base mapped, mapped, send_to, e),
            (_, h', Images-snoc ms ns msg (base + place (s.segments t) (header msg).msg_size) r im),
          )
      | inr full ↦ inr (
        full,
        rw (
          acquire_mapped s p t at base mapped,
          mapped,
          send_to,
          enqueue_refuses message_law base (s.segments t) ms msg h r full,
        ),
      )
    ]

-- `receive` of a process that has mapped the task's queue, with at least one message on its way to
-- the task, gives a copy of the oldest one, and leaves the others.
pub receive-Carries :
    (s : Shared) (p : Process) (base t : ℕ) (n : Message) (ns : List Message)
    → IsMapped p t base
    → Carries (s.segments t) (n ∷ ns)
    → (q : Queue Message) × (receive s p t ≡ done (copied n, with_segment s t q)) × Carries q ns
unfolding receive dequeue_entry
receive-Carries s p base t n ns mapped ([], h, im) = absurd im
receive-Carries s p base t n ns mapped (m ∷ ms, h, (a, e, r, im)) =
    let (pos, q, d, _, _, l, h') = dequeue-Delivers message_law base (s.segments t) (m ∷ ms) h in
    (q, rw (mapped, d, found_at, l, e, clone-rebound-image n a (base + pos) r), (ms, h', im))

-- The test of a mapped queue.
pub empty_at-Carries :
    (q : Queue Message) (base : ℕ) (ns : List Message)
    → Carries q ns
    → (empty_at q (some base) ≡ true) ↔ (ns ≡ [])
unfolding empty_at
empty_at-Carries q base [] ([], h, im) = is_empty-Holds message_law q [] h
empty_at-Carries q base [] (m ∷ ms, h, im) = absurd im
empty_at-Carries q base (n ∷ ns) ([], h, im) = absurd im
empty_at-Carries q base (n ∷ ns) (m ∷ ms, h, im) =
    let i = is_empty-Holds message_law q (m ∷ ms) h in
    let stored : m ∷ ms ≡ [] → ⊥ = λ x. cc in
    let sent : n ∷ ns ≡ [] → ⊥ = λ x. cc in (λ e. absurd (stored (i.0 e)), λ e. absurd (sent e))

-- `message_immediate` of a process that has mapped the task's queue returns 1 exactly when no message
-- is on its way to the task, and keeps the process's table.
pub message_immediate-Carries :
    (s : Shared) (p : Process) (at base t : ℕ) (ns : List Message)
    → IsMapped p t base
    → Carries (s.segments t) ns
    → (b : Bool) × (message_immediate s p at t ≡ done (b, p)) × ((b ≡ true) ↔ (ns ≡ []))
unfolding message_immediate
message_immediate-Carries s p at base t ns mapped k =
    (_, rw (acquire_mapped s p t at base mapped, mapped), empty_at-Carries (s.segments t) base ns k)

tag-image : (n : Message) (a : ℕ) → (header (image n a)).tag ≡ (header n).tag
unfolding image
tag-image (bar m) a = refl
tag-image _ a = refl

abbrev pub next_tag : List Message → ℤ
next_tag [] = negsuc 0
next_tag (n ∷ ns) = (header n).tag

-- `getMsgTag` of a process that has mapped the task's queue gives the tag of the oldest message on
-- its way to the task, or -1 if there is none, and keeps the process's table.
pub get_msg_tag-Carries :
    (s : Shared) (p : Process) (at base t : ℕ) (ns : List Message)
    → IsMapped p t base
    → Carries (s.segments t) ns
    → get_msg_tag s p at t ≡ done (next_tag ns, p)
unfolding get_msg_tag
get_msg_tag-Carries s p at base t [] mapped ([], h, im) = rw (
  acquire_mapped s p t at base mapped,
  mapped,
  (dequeue-Delivers message_law base (s.segments t) [] h).1,
  tag_at,
)
get_msg_tag-Carries s p at base t [] mapped (m ∷ ms, h, im) = absurd im
get_msg_tag-Carries s p at base t (n ∷ ns) mapped ([], h, im) = absurd im
get_msg_tag-Carries s p at base t (n ∷ ns) mapped (m ∷ ms, h, (a, e, r, im)) =
    let (pos, q, _, k, l, _, _) = dequeue-Delivers message_law base (s.segments t) (m ∷ ms) h in
    rw (acquire_mapped s p t at base mapped, mapped, k, tag_at, l, e, tag-image n a)
