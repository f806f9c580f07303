-- ===== src/Tasks/Dispatch.antt =====
-- The `receive` that every task has: wait for a message, look at its tag, and take the message to a
-- handler, drop it, or leave it in the queue ("should never be received").
pub mod Lane
use francois_gingras_master.Common.{
  fault, ℕ, zero, suc, ◌≡◌, refl, false, ℤ, negsuc, pos, List, [], ◌∷◌, Outcome, done, ◌>>=◌, leb_ℤ,
  if◌then◌else◌,
}
use francois_gingras_master.Queue.{Queue}
use francois_gingras_master.Messages.Message.{Message, header}
use francois_gingras_master.Messages.Message.Transit.{copied}
use francois_gingras_master.System.{Shared, Process, with_segment, receive, drop_msg, get_msg_tag}
use francois_gingras_master.System.Delivery.{
  Carries, IsMapped, receive-Carries, get_msg_tag-Carries, segments-with_segment_self,
}
use francois_gingras_master.System.Delivery.Drop.{drop_msg-Carries}

-- A task's id as the index of its table entry and segment. A negative one is outside the table.
abbrev pub task_index : ℤ → Outcome ℕ
task_index (pos n) = done n
task_index (negsuc n) = fault

-- A case of the switch over the tag, for a task with the state S. A handler casts the message.
pub data Reaction (S : Type 0) : Type 0 where
  handles : (S → Message → Outcome S) → Reaction S
  leaves : Reaction S
  drops : Reaction S

-- `waits`: no message with a tag is there, the loop before the switch goes on.
pub data Received (S : Type 0) : Type 0 where
  waits : Process → Received S
  served : S → Shared → Process → Received S

module _ {S : Type 0} where
  unfoldable pub react : Reaction S → S → Shared → Process → ℕ → ℕ → Outcome (Received S)
  react (handles handler) this s p at t = do
    (msg, s') ← receive s p t
    this' ← handler this msg
    done (served this' s' p)
  react leaves this s p at t = done (served this s p)
  react drops this s p at t = do (s', p') ← drop_msg s p at t; done (served this s' p')

  -- `t` is the task's own queue.
  unfoldable pub receive_by : (ℤ → Reaction S) → S → Shared → Process → ℕ → ℕ → Outcome (Received S)
  unfolding react
  receive_by reaction this s p at t = do
    (tag, p') ← get_msg_tag s p at t
    if leb_ℤ tag (negsuc 0) then done (waits p') else react (reaction tag) this s p' at t

  -- What the call does with the oldest message.
  abbrev pub Reacts :
      (ℤ → Reaction S) → S → Shared → Process → ℕ → ℕ → Message → List Message → Reaction S → Type 0
  Reacts reaction this s p at t n ns (handles handler) =
      (q : Queue Message) × (receive_by reaction this s p at t
        ≡ (handler this (copied n) >>= λ this'. done (served this' (with_segment s t q) p)))
      × Carries q ns
  Reacts reaction this s p at t n ns leaves =
      receive_by reaction this s p at t ≡ done (served this s p)
  Reacts reaction this s p at t n ns drops =
      (q : Queue Message) × (receive_by reaction this s p at t
        ≡ done (served this (with_segment s t q) p))
      × Carries q ns

  react-Reacts :
      (reaction : ℤ → Reaction S) (this : S) (s : Shared) (p : Process) (at base t : ℕ)
      (n : Message) (ns : List Message) (r : Reaction S)
      → IsMapped p t base
      → Carries (s.segments t) (n ∷ ns)
      → receive_by reaction this s p at t ≡ react r this s p at t
      → Reacts reaction this s p at t n ns r
  unfolding react
  react-Reacts reaction this s p at base t n ns (handles handler) mapped c e =
      let (q, d, c') = receive-Carries s p base t n ns mapped c in (q, rw (e, d), c')
  react-Reacts reaction this s p at base t n ns leaves mapped c e = e
  react-Reacts reaction this s p at base t n ns drops mapped c e =
      let (q, d, c') = drop_msg-Carries s p at base t (n ∷ ns) mapped c in (q, rw (e, d), c')

  -- With a message of a tag on its way, a call hands the oldest message's copy to the tag's handler,
  -- drops it or leaves it, as the switch says.
  pub receive_by-Reacts :
      (reaction : ℤ → Reaction S) (this : S) (s : Shared) (p : Process) (at base t : ℕ)
      (n : Message) (ns : List Message)
      → IsMapped p t base
      → Carries (s.segments t) (n ∷ ns)
      → leb_ℤ (header n).tag (negsuc 0) ≡ false
      → Reacts reaction this s p at t n ns (reaction (header n).tag)
  unfolding receive_by
  receive_by-Reacts reaction this s p at base t n ns mapped c tagged =
      react-Reacts reaction this s p at base t n ns (reaction (header n).tag) mapped c
        (rw (get_msg_tag-Carries s p at base t (n ∷ ns) mapped c, tagged))

  -- A message whose handler succeeds is handled and gone.
  pub receive_by-handles :
      (reaction : ℤ → Reaction S) (handler : S → Message → Outcome S) (this this' : S) (s : Shared)
      (p : Process) (at base t : ℕ) (n : Message) (ns : List Message)
      → IsMapped p t base
      → Carries (s.segments t) (n ∷ ns)
      → leb_ℤ (header n).tag (negsuc 0) ≡ false
      → reaction (header n).tag ≡ handles handler
      → handler this (copied n) ≡ done this'
      → (s' : Shared) × (receive_by reaction this s p at t ≡ done (served this' s' p))
        × Carries (s'.segments t) ns
  receive_by-handles reaction handler this this' s p at base t n ns mapped c tagged e h =
      let (q, run, c') =
        rw e at (receive_by-Reacts reaction this s p at base t n ns mapped c tagged) in
      (with_segment s t q, rw (run, h) refl, rw (segments-with_segment_self s t q) c')

  -- With none it waits.
  pub receive_by-waits :
      (reaction : ℤ → Reaction S) (this : S) (s : Shared) (p : Process) (at base t : ℕ)
      → IsMapped p t base
      → Carries (s.segments t) []
      → receive_by reaction this s p at t ≡ done (waits p)
  unfolding receive_by
  receive_by-waits reaction this s p at base t mapped c =
      rw (get_msg_tag-Carries s p at base t [] mapped c)

  -- `n` calls, one after the other, up to the first that waits.
  unfoldable pub receives :
      (ℤ → Reaction S) → ℕ → S → Shared → Process → ℕ → ℕ → Outcome (Received S)
  receives reaction zero this s p at t = done (served this s p)
  receives reaction (suc n) this s p at t = receive_by reaction this s p at t >>= λ r. elim r [
    | waits p' ↦ done (waits p')
    | served this' s' p' ↦ receives reaction n this' s' p' at t
  ]

  pub receives_cons :
      (reaction : ℤ → Reaction S) (this this' : S) (s s' : Shared) (p p' : Process) (at t k : ℕ)
      → receive_by reaction this s p at t ≡ done (served this' s' p')
      → receives reaction (suc k) this s p at t ≡ receives reaction k this' s' p' at t
  unfolding receives
  receives_cons reaction this this' s s' p p' at t k e = rw e refl
