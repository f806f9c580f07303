-- ===== src/Queue/Dequeue.antt =====
-- `Peek`, `IsEmpty` and `Dequeue`: what they return, and what the queue holds then.
use francois_gingras_master.Common.{
  ℕ, ◌+◌, ◌-◌, ◌≤◌, ◌<◌, ◌≡◌, ◌↔◌, refl, ap, ◌∙◌, inl, inr, true, false, none, some, done, ◌>>=◌,
  List, [], ◌∷◌, ◌++◌, arith, length, ◌==◌, if◌then◌else◌, minus_one, add32,
}
use francois_gingras_master.Queue.{Queue, sizeof_queue, peek, is_empty, rebind_at, dequeue}
use francois_gingras_master.Queue.Api.{MessageApi, IsLawful, q_size}
use francois_gingras_master.Queue.Memory.{store, load, load-store_self}
use francois_gingras_master.Queue.Invariant.{Holds, straight, wrapped, Laid, Laid-le, Laid-store}

module _ {api : MessageApi} (law : IsLawful api) where
  open api use {Msg, tid, msg_size, extent, rebinder}
  open law use {IsSound, rebound, extent-le, extent-pos, rebinder-rebound, extent-rebound}

  -- The queue after the message at `p` was taken out and rebound.
  abbrev pub popped : ℕ → Queue Msg → ℕ → Msg → ℕ → Queue Msg
  popped base q p m rollover = record {
    mem = store extent p (rebound (base + p) m) q.mem;
    head = p + msg_size m;
    tail = q.tail;
    size = q.size - 1;
    rollover_position = rollover;
  }

  -- What a call returns on a queue that holds these messages: NULL from an empty one, else a
  -- pointer to the oldest message, rebound, and the queue holds the others.
  abbrev pub Delivers : ℕ → Queue Msg → List Msg → Type 0
  Delivers base q [] = (dequeue api base q ≡ done (none, q)) × (peek api q ≡ none)
  Delivers base q (m ∷ ms) =
      (p : ℕ) × (q' : Queue Msg) × (dequeue api base q ≡ done (some p, q'))
      × (peek api q ≡ some p)
      × (load p q.mem ≡ some m)
      × (load p q'.mem ≡ some (rebound (base + p) m))
      × Holds law q' ms

  rebind_at_lem :
      (base : ℕ) (q : Queue Msg) (p : ℕ) (m : Msg)
      → IsSound m
      → (rebinder (tid m) >>= rebind_at api base q p m)
        ≡ done (some p, record q { mem = store extent p (rebound (base + p) m) q.mem })
  unfolding rebind_at
  rebind_at_lem base q p m s =
      let (f, e, h) = rebinder-rebound m s in rw (e, h (base + p), rebind_at)

  pub dequeue_at :
      (base : ℕ) (q : Queue Msg) (p rollover : ℕ) (m : Msg)
      → IsSound m
      → 0 < q.size
      → p ≡ (if q.head == q.rollover_position then sizeof_queue else q.head)
      → rollover ≡ (if q.head == q.rollover_position then minus_one else q.rollover_position)
      → load p q.mem ≡ some m
      → p + msg_size m ≤ q_size
      → (dequeue api base q ≡ done (some p, popped base q p m rollover)) × (peek api q ≡ some p)
  unfolding dequeue peek
  dequeue_at base q p rollover m s n e r l h =
      let z : (q.size == 0) ≡ false = ground arith in
      let w : add32 p (msg_size m) ≡ p + msg_size m = omega arith in
      (rw (z, ← e, ← r, l, w) (rebind_at_lem base _ p m s), rw (z, ← e))

  deliver_straight :
      (base : ℕ) (q : Queue Msg) (ms : List Msg)
      → q.rollover_position ≡ minus_one
      → sizeof_queue ≤ q.head
      → q.tail ≤ q_size
      → Laid law q.mem q.head q.tail ms
      → q.size ≡ length ms
      → Delivers base q ms
  unfolding dequeue peek
  deliver_straight base q [] r lo hi laid sz = (rw sz, rw sz)
  deliver_straight base q (m ∷ ms) r lo hi laid sz =
      let bound = Laid-le law q.mem (q.head + msg_size m) q.tail ms laid.2 in
      let m' = rebound (base + q.head) m in
      let d =
        dequeue_at base q q.head minus_one m laid.1 (omega arith) (ground arith) (ground arith)
          laid.0 (omega arith) in
      (
        q.head,
        popped base q q.head m minus_one,
        d.0,
        d.1,
        laid.0,
        load-store_self extent q.head m' q.mem,
        straight refl (omega arith) hi
            (Laid-store law q.mem (q.head + msg_size m) q.tail q.head ms m'
              (inr (omega (arith, extent-rebound m (base + q.head), extent-le m laid.1))) laid.2)
            (omega arith),
      )

  -- The last message before the rollover position is out: the head goes back to the start.
  deliver_rollover :
      (base : ℕ) (q : Queue Msg) (y : Msg) (ys : List Msg)
      → q.head ≡ q.rollover_position
      → q.rollover_position ≤ q_size
      → q.tail ≤ q.head
      → Laid law q.mem sizeof_queue q.tail (y ∷ ys)
      → q.size ≡ length (y ∷ ys)
      → Delivers base q (y ∷ ys)
  deliver_rollover base q y ys e r th laid sz =
      let bound = Laid-le law q.mem (sizeof_queue + msg_size y) q.tail ys laid.2 in
      let y' = rebound (base + sizeof_queue) y in
      let d =
        dequeue_at base q sizeof_queue minus_one y laid.1 (omega arith) (ground arith)
          (ground arith) laid.0 (omega arith) in
      (
        sizeof_queue,
        popped base q sizeof_queue y minus_one,
        d.0,
        d.1,
        laid.0,
        load-store_self extent sizeof_queue y' q.mem,
        straight refl (omega arith) (omega arith)
            (Laid-store law q.mem (sizeof_queue + msg_size y) q.tail sizeof_queue ys y'
              (inr (omega (arith, extent-rebound y (base + sizeof_queue), extent-le y laid.1)))
              laid.2)
            (omega arith),
      )

  deliver_wrapped :
      (base : ℕ) (q : Queue Msg) (x : Msg) (xs : List Msg) (y : Msg) (ys : List Msg)
      → q.rollover_position ≤ q_size
      → q.tail ≤ q.head
      → Laid law q.mem q.head q.rollover_position (x ∷ xs)
      → Laid law q.mem sizeof_queue q.tail (y ∷ ys)
      → q.size ≡ length (x ∷ xs ++ (y ∷ ys))
      → Delivers base q (x ∷ xs ++ (y ∷ ys))
  deliver_wrapped base q x xs y ys r th first second sz =
      let bound = Laid-le law q.mem (q.head + msg_size x) q.rollover_position xs first.2 in
      let x' = rebound (base + q.head) x in
      let below : q.head + extent x' ≤ q.head + msg_size x =
        omega (arith, extent-rebound x (base + q.head), extent-le x first.1, extent-pos x) in
      let positive : 0 < msg_size x = omega (arith, extent-le x first.1, extent-pos x) in
      let d =
        dequeue_at base q q.head q.rollover_position x first.1 (omega arith) (ground arith)
          (ground arith) first.0 (omega arith) in
      (
        q.head,
        popped base q q.head x q.rollover_position,
        d.0,
        d.1,
        first.0,
        load-store_self extent q.head x' q.mem,
        wrapped xs y ys refl r (omega arith)
            (Laid-store law q.mem (q.head + msg_size x) q.rollover_position q.head xs x' (inr below)
              first.2)
            (Laid-store law q.mem sizeof_queue q.tail q.head (y ∷ ys) x' (inl th) second)
            (omega arith),
      )

  -- `Dequeue` of a well-formed queue gives the oldest message, rebound for the process that calls it, and leaves the
  -- others; `Peek` points at the same message, not rebound. From an empty queue it gives NULL and
  -- changes nothing.
  pub dequeue-Delivers :
      (base : ℕ) (q : Queue Msg) (ms : List Msg) → Holds law q ms → Delivers base q ms
  dequeue-Delivers base q ms (straight r lo hi laid sz) = deliver_straight base q ms r lo hi laid sz
  dequeue-Delivers base q ms (wrapped [] y ys e r th first second sz) =
      rw e (deliver_rollover base q y ys first r th second (sz ∙ ap length e))
  dequeue-Delivers base q ms (wrapped (x ∷ xs) y ys e r th first second sz) =
      rw e (deliver_wrapped base q x xs y ys r th first second (sz ∙ ap length e))

  size-length : (q : Queue Msg) (ms : List Msg) → Holds law q ms → q.size ≡ length ms
  size-length q ms (straight r lo hi laid sz) = sz
  size-length q ms (wrapped xs y ys e r th first second sz) = sz

  -- `IsEmpty` of a well-formed queue returns 1 exactly when the queue holds no message.
  pub is_empty-Holds :
      (q : Queue Msg) (ms : List Msg) → Holds law q ms → (is_empty api q ≡ true) ↔ (ms ≡ [])
  unfolding is_empty
  is_empty-Holds q [] h = (λ _. refl, λ _. ground (arith, size-length q [] h))
  is_empty-Holds q (m ∷ ms) h = (λ e. absurd (ground (arith, size-length q (m ∷ ms) h)), λ e. cc)
