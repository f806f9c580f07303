-- ===== src/Queue/Fifo.antt =====
-- A queue is a first-in first-out list that may refuse a message. Any processes may use it, each
-- call from its own mapping of the segment.
use francois_gingras_master.Common.{
  ℕ, ◌+◌, ◌≡◌, refl, inl, inr, Bool, true, false, Bool-cases, Option, none, some, Outcome, done,
  ◌>>=◌, or_fault, List, [], ◌∷◌, ◌++◌,
}
use francois_gingras_master.Queue.{Queue, enqueue, dequeue}
use francois_gingras_master.Queue.Api.{MessageApi, IsLawful}
use francois_gingras_master.Queue.Memory.{load}
use francois_gingras_master.Queue.Invariant.{Holds}
use francois_gingras_master.Queue.Enqueue.{has_room, place}
use francois_gingras_master.Queue.Enqueue.Accept.{enqueue-Holds, enqueue_refuses}
use francois_gingras_master.Queue.Dequeue.{dequeue-Delivers}

-- A call, with the address at which its process has mapped the segment.
pub data Op (M : Type 0) : Type 0 where
  put : ℕ → M → Op M
  get : ℕ → Op M

-- What the caller sees: the flag, or the object behind the pointer.
pub data Reply (M : Type 0) : Type 0 where
  accepted : Bool → Reply M
  taken : Option M → Reply M

module _ (api : MessageApi) where
  open api use {Msg}

  call : Queue Msg → Op Msg → Outcome (Reply Msg × Queue Msg)
  call q (put base m) = do (flag, m', q') ← enqueue api base q m; done (accepted flag, q')
  call q (get base) = do (p, q') ← dequeue api base q; reply q' p
    where
      reply : Queue Msg → Option ℕ → Outcome (Reply Msg × Queue Msg)
      reply q' none = done (taken none, q')
      reply q' (some p) = (or_fault (load p q'.mem)) >>= λ m. done (taken (some m), q')

  unfoldable pub run : Queue Msg → List (Op Msg) → Outcome (List (Reply Msg))
  unfolding call
  run q [] = done []
  run q (op ∷ ops) = do (r, q') ← call q op; rs ← run q' ops; done (r ∷ rs)

module _ {api : MessageApi} (law : IsLawful api) where
  open api use {Msg, msg_size}
  open law use {IsReady, image, rebound}

  -- The replies that a first-in first-out list gives: a message is taken in at the end or refused,
  -- and the oldest one is given out. `image` and `rebound` set the pointers inside it.
  pub data Trace : List Msg → List (Op Msg) → List (Reply Msg) → Type 0 where
    stop : {ms : List Msg} → Trace ms [] []
    enters :
        {ms : List Msg} {base : ℕ} {m : Msg} {ops : List (Op Msg)} {rs : List (Reply Msg)} (a : ℕ)
        → Trace (ms ++ (image m a ∷ [])) ops rs
        → Trace ms (put base m ∷ ops) (accepted true ∷ rs)
    refused :
        {ms : List Msg} {base : ℕ} {m : Msg} {ops : List (Op Msg)} {rs : List (Reply Msg)}
        → Trace ms ops rs
        → Trace ms (put base m ∷ ops) (accepted false ∷ rs)
    leaves :
        {m : Msg} {ms : List Msg} {base : ℕ} {ops : List (Op Msg)} {rs : List (Reply Msg)} (a : ℕ)
        → Trace ms ops rs
        → Trace (m ∷ ms) (get base ∷ ops) (taken (some (rebound a m)) ∷ rs)
    nothing :
        {base : ℕ} {ops : List (Op Msg)} {rs : List (Reply Msg)}
        → Trace [] ops rs
        → Trace [] (get base ∷ ops) (taken none ∷ rs)

  abbrev pub AreReady : List (Op Msg) → Type 0
  AreReady [] = Unit {0}
  AreReady (put base m ∷ ops) = IsReady m × AreReady ops
  AreReady (get base ∷ ops) = AreReady ops

  -- No sequence of calls with well-formed messages, by any processes, tells a queue from the list of
  -- the messages that it holds: every call returns, and its reply is that list's.
  pub run-Trace :
      (q : Queue Msg) (ms : List Msg) (ops : List (Op Msg))
      → Holds law q ms
      → AreReady ops
      → (rs : List (Reply Msg)) × (run api q ops ≡ done rs) × Trace ms ops rs
  unfolding run
  run-Trace q ms [] h s = ([], refl, stop)
  run-Trace q ms (put base m ∷ ops) h s = elim (Bool-cases (has_room q (msg_size m))) [
    | inl room ↦
        let (q', e, h') = enqueue-Holds law base q ms m h s.0 room in
        let (rs, e', t) =
          run-Trace q' (ms ++ (image m (base + place q (msg_size m)) ∷ [])) ops h' s.1 in
        (accepted true ∷ rs, rw (e, e'), enters (base + place q (msg_size m)) t)
    | inr full ↦
        let (rs, e', t) = run-Trace q ms ops h s.1 in
        (accepted false ∷ rs, rw (enqueue_refuses law base q ms m h s.0 full, e'), refused t)
  ]
  run-Trace q [] (get base ∷ ops) h s =
      let (rs, e', t) = run-Trace q [] ops h s in
      (taken none ∷ rs, rw ((dequeue-Delivers law base q [] h).0, e'), nothing t)
  run-Trace q (m ∷ ms) (get base ∷ ops) h s =
      let (p, q', e, _, _, l, h') = dequeue-Delivers law base q (m ∷ ms) h in
      let (rs, e', t) = run-Trace q' ms ops h' s in
      (taken (some (rebound (base + p) m)) ∷ rs, rw (e, l, e'), leaves (base + p) t)
