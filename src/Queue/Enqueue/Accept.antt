-- ===== src/Queue/Enqueue/Accept.antt =====
-- `Enqueue`: what the queue holds after a call.
use francois_gingras_master.Common.{
  ℕ, ◌+◌, ◌≤◌, ◌<◌, ◌≡◌, refl, ap, ◌∙◌, inr, true, false, done, List, [], ◌∷◌, ◌++◌, append_assoc,
  arith, length, length-append, if◌then◌else◌, minus_one, add32, int_gt,
}
use native.Mathlib.Decide.{dec_le}
use francois_gingras_master.Queue.{Queue, sizeof_queue, enqueue}
use francois_gingras_master.Queue.Api.{MessageApi, IsLawful, q_size}
use francois_gingras_master.Queue.Invariant.{
  Holds, straight, wrapped, Laid, Laid-le, Laid-store, Laid-extend,
}
use francois_gingras_master.Queue.Enqueue.{
  has_room, place, Accepts, pushed, write_future_lem, enqueue_straight, enqueue_rollover,
  enqueue_wrapped, enqueue_full,
}

module _ {api : MessageApi} (law : IsLawful api) where
  open api use {Msg, msg_size, extent}
  open law use {IsReady, image, after, extent-le, image-IsSound, msg_size-image}

  length-snoc :
      (ms : List Msg) (m : Msg) (n : ℕ)
      → n ≡ length ms
      → length ms ≤ q_size
      → add32 n 1 ≡ length (ms ++ (m ∷ []))
  length-snoc ms m n e h = omega (arith, length-append ms (m ∷ []))

  accept_straight :
      (base : ℕ) (q : Queue Msg) (ms : List Msg) (item : Msg)
      → IsReady item
      → q.rollover_position ≡ minus_one
      → sizeof_queue ≤ q.head
      → Laid law q.mem q.head q.tail ms
      → q.size ≡ length ms
      → q.tail + msg_size item ≤ q_size
      → Accepts law base q ms item
  accept_straight base q ms item s r lo laid sz h =
      let bound = Laid-le law q.mem q.head q.tail ms laid in
      let e : place q (msg_size item) ≡ q.tail = ground arith in
      let img = image item (base + q.tail) in
      (
        pushed law q q.tail img minus_one,
        enqueue_straight law base q item r h
            ∙ write_future_lem law base q item q.tail minus_one s (omega arith) h
            ∙ ap (λ k. done (true, after item, pushed law q q.tail img k)) r,
        rw e (
            straight refl lo (omega (arith, msg_size-image item (base + q.tail)))
              (Laid-extend law q.mem q.head q.tail ms img (image-IsSound item (base + q.tail) s)
                laid)
              (length-snoc ms img q.size sz (omega arith))),
      )

  accept_rollover :
      (base : ℕ) (q : Queue Msg) (ms : List Msg) (item : Msg)
      → IsReady item
      → q.rollover_position ≡ minus_one
      → sizeof_queue ≤ q.head
      → q.tail ≤ q_size
      → Laid law q.mem q.head q.tail ms
      → q.size ≡ length ms
      → q_size < q.tail + msg_size item
      → sizeof_queue + msg_size item ≤ q.head
      → Accepts law base q ms item
  accept_rollover base q ms item s r lo hi laid sz h k =
      let bound = Laid-le law q.mem q.head q.tail ms laid in
      let e : place q (msg_size item) ≡ sizeof_queue = ground arith in
      let img = image item (base + sizeof_queue) in
      let written = image-IsSound item (base + sizeof_queue) s in
      let size_kept = msg_size-image item (base + sizeof_queue) in
      let start = Laid-extend law q.mem sizeof_queue sizeof_queue [] img written refl in
      let g : int_gt q.tail 0 ≡ true = ground arith in
      (
        pushed law q sizeof_queue img q.tail,
        enqueue_rollover law base q item s r hi h k
            ∙ write_future_lem law base q item sizeof_queue q.tail s (omega arith) (omega arith)
            ∙ ap
                (λ b. done (
                  true,
                  after item,
                  pushed law q sizeof_queue img (if b then q.tail else q.rollover_position),
                ))
                g,
        rw e (
            wrapped ms img [] refl hi (omega arith)
              (Laid-store law q.mem q.head q.tail sizeof_queue ms img
                (inr (omega (arith, extent-le img written))) laid)
              start (length-snoc ms img q.size sz (omega arith))),
      )

  accept_wrapped :
      (base : ℕ) (q : Queue Msg) (xs : List Msg) (y : Msg) (ys : List Msg) (item : Msg)
      → IsReady item
      → q.rollover_position ≤ q_size
      → Laid law q.mem q.head q.rollover_position xs
      → Laid law q.mem sizeof_queue q.tail (y ∷ ys)
      → q.size ≡ length (xs ++ (y ∷ ys))
      → q.tail + msg_size item ≤ q.head
      → Accepts law base q (xs ++ (y ∷ ys)) item
  accept_wrapped base q xs y ys item s r first second sz h =
      let before = Laid-le law q.mem q.head q.rollover_position xs first in
      let bound = Laid-le law q.mem sizeof_queue q.tail (y ∷ ys) second in
      let e : place q (msg_size item) ≡ q.tail = ground arith in
      let img = image item (base + q.tail) in
      let written = image-IsSound item (base + q.tail) s in
      let size_kept = msg_size-image item (base + q.tail) in
      (
        pushed law q q.tail img q.rollover_position,
        enqueue_wrapped law base q item r h (omega arith)
            ∙ write_future_lem law base q item q.tail minus_one s (omega arith) (omega arith),
        rw e (
            wrapped xs y (ys ++ (img ∷ [])) (append_assoc xs (y ∷ ys) (img ∷ [])) r (omega arith)
              (Laid-store law q.mem q.head q.rollover_position q.tail xs img
                (inr (omega (arith, extent-le img written))) first)
              (Laid-extend law q.mem sizeof_queue q.tail (y ∷ ys) img written second)
              (length-snoc (xs ++ (y ∷ ys)) img q.size sz
                (omega (arith, length-append xs (y ∷ ys))))),
      )

  -- Where a well-formed queue has room for a ready message, `Enqueue` returns 1 and the queue then
  -- holds the messages that it held, with the written message behind them.
  pub enqueue-Holds :
      (base : ℕ) (q : Queue Msg) (ms : List Msg) (item : Msg)
      → Holds law q ms
      → IsReady item
      → has_room q (msg_size item) ≡ true
      → Accepts law base q ms item
  enqueue-Holds base q ms item (straight r lo hi laid sz) s room =
      elim (dec_le (q.tail + msg_size item) q_size) [
        | yes fits ↦ accept_straight base q ms item s r lo laid sz fits
        | no over ↦ accept_rollover base q ms item s r lo hi laid sz (omega arith) (ground arith)
      ]
  enqueue-Holds base q ms item (wrapped xs y ys e r th first second sz) s room =
      rw e (accept_wrapped base q xs y ys item s r first second (sz ∙ ap length e) (ground arith))

  -- Where a well-formed queue has no room for a ready message, `Enqueue` returns 0 and changes neither
  -- the queue nor the message.
  pub enqueue_refuses :
      (base : ℕ) (q : Queue Msg) (ms : List Msg) (item : Msg)
      → Holds law q ms
      → IsReady item
      → has_room q (msg_size item) ≡ false
      → enqueue api base q item ≡ done (false, item, q)
  enqueue_refuses base q ms item (straight r lo hi laid sz) s full =
      enqueue_full law base q item s hi (omega (arith, Laid-le law q.mem q.head q.tail ms laid))
        full
  enqueue_refuses base q ms item (wrapped xs y ys e r th first second sz) s full =
      let before = Laid-le law q.mem q.head q.rollover_position xs first in
      enqueue_full law base q item s (omega arith) (omega arith) full
