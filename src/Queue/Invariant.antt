-- ===== src/Queue/Invariant.antt =====
-- What a queue holds: its messages, oldest first, laid out one behind the other from `head` on, and
-- after a rollover from the end of the struct on.
use francois_gingras_master.Common.{
  ℕ, ◌+◌, ◌≤◌, ◌≡◌, refl, ◌⊎◌, inl, some, List, [], ◌∷◌, ◌++◌, arith, length, minus_one,
}
use francois_gingras_master.Queue.{Queue, sizeof_queue, create_queue}
use francois_gingras_master.Queue.Api.{MessageApi, IsLawful, q_size}
use francois_gingras_master.Queue.Memory.{store, load, load-store_apart, load-store_self}

module _ {api : MessageApi} (law : IsLawful api) where
  open api use {Msg, msg_size, extent}
  open law use {IsSound, extent-pos, extent-le}

  -- The messages fill `[a, b)`.
  abbrev pub Laid : List (ℕ × Msg) → ℕ → ℕ → List Msg → Type 0
  Laid mem a b [] = a ≡ b
  Laid mem a b (m ∷ ms) = (load a mem ≡ some m) × IsSound m × Laid mem (a + msg_size m) b ms

  -- `straight`: head up to tail. `wrapped`: head up to the rollover position, then from the end of
  -- the struct up to tail, with at least one message there.
  pub data Holds (q : Queue Msg) (ms : List Msg) : Type 0 where
    straight :
        q.rollover_position ≡ minus_one
        → sizeof_queue ≤ q.head
        → q.tail ≤ q_size
        → Laid q.mem q.head q.tail ms
        → q.size ≡ length ms
        → Holds q ms
    wrapped :
        (xs : List Msg) (y : Msg) (ys : List Msg)
        → ms ≡ xs ++ (y ∷ ys)
        → q.rollover_position ≤ q_size
        → q.tail ≤ q.head
        → Laid q.mem q.head q.rollover_position xs
        → Laid q.mem sizeof_queue q.tail (y ∷ ys)
        → q.size ≡ length ms
        → Holds q ms

  -- A laid run is at least as long as it has messages.
  pub Laid-le :
      (mem : List (ℕ × Msg)) (a b : ℕ) (ms : List Msg) → Laid mem a b ms → a + length ms ≤ b
  Laid-le mem a b [] h = omega arith
  Laid-le mem a b (m ∷ ms) h =
      omega (arith, Laid-le mem (a + msg_size m) b ms h.2, extent-pos m, extent-le m h.1)

  pub Laid-snoc :
      (mem : List (ℕ × Msg)) (a b : ℕ) (ms : List Msg) (m : Msg)
      → Laid mem a b ms
      → load b mem ≡ some m
      → IsSound m
      → Laid mem a (b + msg_size m) (ms ++ (m ∷ []))
  Laid-snoc mem a b [] m h e s = rw h (e, s, refl)
  Laid-snoc mem a b (k ∷ ms) m h e s = (h.0, h.1, Laid-snoc mem (a + msg_size k) b ms m h.2 e s)

  -- A write beside a laid run leaves it.
  pub Laid-store :
      (mem : List (ℕ × Msg)) (a b p : ℕ) (ms : List Msg) (m : Msg)
      → (b ≤ p) ⊎ (p + extent m ≤ a)
      → Laid mem a b ms
      → Laid (store extent p m mem) a b ms
  Laid-store mem a b p [] m apart h = h
  Laid-store mem a b p (k ∷ ms) m apart h = (
    load-store_apart extent p a m k mem (extent-pos m) (extent-pos k) h.0
        (omega (arith, Laid-le mem (a + msg_size k) b ms h.2, extent-le k h.1)),
    h.1,
    Laid-store mem (a + msg_size k) b p ms m (omega arith) h.2,
  )

  -- A write at the end of a laid run extends it.
  pub Laid-extend :
      (mem : List (ℕ × Msg)) (a b : ℕ) (ms : List Msg) (m : Msg)
      → IsSound m
      → Laid mem a b ms
      → Laid (store extent b m mem) a (b + msg_size m) (ms ++ (m ∷ []))
  Laid-extend mem a b ms m s h =
      Laid-snoc (store extent b m mem) a b ms m (Laid-store mem a b b ms m (inl (omega arith)) h)
        (load-store_self extent b m mem) s

  -- A new queue is empty.
  pub create_queue-Holds : Holds create_queue []
  unfolding create_queue
  create_queue-Holds = straight refl (omega arith) (omega arith) refl refl
