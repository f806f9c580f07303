-- ===== src/System/History.antt =====
-- Any processes send and poll, one call after the other: nothing is lost, doubled or reordered.
use francois_gingras_master.Common.{
  ℕ, ◌≡◌, ◌↔◌, refl, ap, sym, ◌∙◌, Bool, true, false, Bool-cases, inl, inr, List, [], ◌∷◌, ◌++◌,
  map, append_assoc, Outcome, done, ◌>>=◌, if◌then◌else◌, ◌==◌, ==_self, arith,
}
use mathlib.Core.List.{map-append}
use mathlib.Core.Bool.{false≢true}
use francois_gingras_master.Queue.{Queue}
use francois_gingras_master.Messages.Message.{Message}
use francois_gingras_master.Messages.Message.Law.{IsReady}
use francois_gingras_master.Messages.Message.Transit.{copied}
use francois_gingras_master.System.{
  Shared, Process, update, with_segment, send, receive, message_immediate,
}
use francois_gingras_master.System.Delivery.{
  Carries, IsMapped, send-Carries, receive-Carries, message_immediate-Carries,
}

-- `polls` receives if a message is there, as a task does that must not wait.
pub data Event : Type 0 where
  sends : Process → ℕ → Message → ℕ → Event
  polls : Process → ℕ → ℕ → Event

-- What was taken in for each task and what each task has received, in order.
pub record Log : Type 0 where
  pub shared : Shared
  pub accepted : ℕ → List Message
  pub received : ℕ → List Message

poll : Log → Process → ℕ → Bool → Outcome Log
poll g p t true = done g
poll g p t false = do
  (msg, s) ← receive g.shared p t
  done (record g { shared = s; received = update g.received t (g.received t ++ (msg ∷ [])) })

unfoldable pub step : Log → Event → Outcome Log
unfolding poll
step g (sends p at msg t) = do
  (flag, msg', s, p') ← send g.shared p at msg t
  done (record g {
    shared = s;
    accepted = if flag then update g.accepted t (g.accepted t ++ (msg ∷ [])) else g.accepted;
  })
step g (polls p at t) = do
  (none_there, p') ← message_immediate g.shared p at t
  poll g p t none_there

unfoldable pub run : Log → List Event → Outcome Log
unfolding step
run g [] = done g
run g (e ∷ es) = step g e >>= λ g'. run g' es

-- The process has mapped the queue, and what is sent is well-formed.
abbrev pub IsProper : Event → Type 0
IsProper (sends p at msg t) = (base : ℕ) × IsMapped p t base × IsReady msg
IsProper (polls p at t) = (base : ℕ) × IsMapped p t base

abbrev pub AreProper : List Event → Type 0
AreProper [] = Unit {0}
AreProper (e ∷ es) = IsProper e × AreProper es

-- What was received and what is on its way are together what was taken in, in order.
abbrev pub IsKept : Log → ℕ → Type 0
IsKept g t =
    (ns : List Message) × Carries (g.shared.segments t) ns
    × (map copied (g.accepted t) ≡ g.received t ++ map copied ns)

abbrev pub AllKept : Log → Type 0
AllKept g = (t : ℕ) → IsKept g t

-- The log after a call that takes a message in, one that refuses it and one that receives.
abbrev after_accept : Log → ℕ → Queue Message → Message → Log
after_accept g t q msg = record g {
  shared = with_segment g.shared t q;
  accepted = update g.accepted t (g.accepted t ++ (msg ∷ []));
}

abbrev after_refusal : Log → ℕ → Log
after_refusal g t = record g { shared = with_segment g.shared t (g.shared.segments t) }

abbrev after_receive : Log → ℕ → Queue Message → Message → Log
after_receive g t q n = record g {
  shared = with_segment g.shared t q;
  received = update g.received t (g.received t ++ (copied n ∷ []));
}

step_accepts :
    (g : Log) (t : ℕ) (q : Queue Message) (ns : List Message) (msg : Message)
    → AllKept g
    → map copied (g.accepted t) ≡ g.received t ++ map copied ns
    → Carries q (ns ++ (msg ∷ []))
    → AllKept (after_accept g t q msg)
step_accepts g t q ns msg k e c u = elim (Bool-cases (u == t)) [
  | inl same ↦
      let at : u ≡ t = ground arith in
      rw (at, ==_self t)
        (
          ns ++ (msg ∷ []),
          c,
          map-append copied (g.accepted t) (msg ∷ [])
              ∙ ap (λ l. l ++ (copied msg ∷ [])) e
              ∙ append_assoc (g.received t) (map copied ns) (copied msg ∷ [])
              ∙ ap (λ l. g.received t ++ l) (sym (map-append copied ns (msg ∷ []))),
        )
  | inr other ↦ rw other (k u)
]

step_same : (g : Log) (t : ℕ) → AllKept g → AllKept (after_refusal g t)
step_same g t k u = elim (Bool-cases (u == t)) [
  | inl same ↦ let at : u ≡ t = ground arith in rw (at, ==_self t) (k t)
  | inr other ↦ rw other (k u)
]

step_receives :
    (g : Log) (t : ℕ) (q : Queue Message) (n : Message) (ns : List Message)
    → AllKept g
    → map copied (g.accepted t) ≡ g.received t ++ map copied (n ∷ ns)
    → Carries q ns
    → AllKept (after_receive g t q n)
step_receives g t q n ns k e c u = elim (Bool-cases (u == t)) [
  | inl same ↦
      let at : u ≡ t = ground arith in
      rw (at, ==_self t)
        (ns, c, e ∙ sym (append_assoc (g.received t) (copied n ∷ []) (map copied ns)))
  | inr other ↦ rw other (k u)
]

step-AllKept :
    (g : Log) (e : Event) → AllKept g → IsProper e → (g' : Log) × (step g e ≡ done g') × AllKept g'
unfolding step
step-AllKept g (sends p at msg t) k (base, mapped, ready) =
    let (ns, c, e) = k t in
    elim (send-Carries g.shared p at base msg t ns mapped c ready) [
      | inl (_, q, d, c') ↦ (after_accept g t q msg, rw d, step_accepts g t q ns msg k e c')
      | inr (_, d) ↦ (after_refusal g t, rw d, step_same g t k)
    ]
step-AllKept g (polls p at t) k (base, mapped) =
    let (ns, c, e) = k t in
    polled ns c e (message_immediate-Carries g.shared p at base t ns mapped c)
  where
    polled :
        (ns : List Message)
        → Carries (g.shared.segments t) ns
        → map copied (g.accepted t) ≡ g.received t ++ map copied ns
        → (b : Bool) × (message_immediate g.shared p at t ≡ done (b, p)) × ((b ≡ true) ↔ (ns ≡ []))
        → (g' : Log) × (step g (polls p at t) ≡ done g') × AllKept g'
    polled ns c e (true, d, i) = (g, rw d, k)
    polled [] c e (false, d, i) = absurd (false≢true (i.1 refl))
    polled (n ∷ ns) c e (false, d, i) =
        let (q, d', c') = receive-Carries g.shared p base t n ns mapped c in
        (after_receive g t q n, rw (d, poll, d'), step_receives g t q n ns k e c')

-- Whatever processes that have mapped the queues send and poll, ready messages and in whatever
-- order, from a state in which all is kept, no call fails, and for every task what it has
-- received, followed by what is on its way, is what was taken in for it, in the order of the sends.
pub run-AllKept :
    (g : Log) (es : List Event)
    → AllKept g
    → AreProper es
    → (g' : Log) × (run g es ≡ done g') × AllKept g'
unfolding run
run-AllKept g [] k p = (g, refl, k)
run-AllKept g (e ∷ es) k p =
    let (g', d, k') = step-AllKept g e k p.0 in
    let (g'', d', k'') = run-AllKept g' es k' p.1 in (g'', rw (d, d'), k'')
