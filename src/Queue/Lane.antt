-- ===== src/Queue/Lane.antt =====
-- A queue that has not reached the end of its segment yet: what is written into it so far ends
-- before a bound.
use francois_gingras_master.Common.{
  ℕ, ◌+◌, ◌≤◌, ◌≡◌, refl, ap, ◌∙◌, inr, true, some, done, List, [], ◌∷◌, ◌++◌, length,
  length-append, minus_one, arith,
}
use francois_gingras_master.Queue.{Queue, sizeof_queue, create_queue, enqueue, dequeue}
use francois_gingras_master.Queue.Api.{MessageApi, IsLawful, q_size}
use francois_gingras_master.Queue.Memory.{load, load-store_self}
use francois_gingras_master.Queue.Invariant.{
  Holds, straight, Laid, Laid-le, Laid-store, Laid-extend,
}
use francois_gingras_master.Queue.Enqueue.{pushed, write_future_lem, enqueue_straight}
use francois_gingras_master.Queue.Dequeue.{popped, dequeue_at}

module _ {api : MessageApi} (law : IsLawful api) where
  open api use {Msg, msg_size, extent}
  open law use {
    IsReady, IsSound, image, after, rebound, extent-le, image-IsSound, msg_size-image,
    extent-rebound,
  }

  pub record Lane (q : Queue Msg) (ms : List Msg) (used : ℕ) : Type 0 where
    pub unrolled : q.rollover_position ≡ minus_one
    pub low : sizeof_queue ≤ q.head
    pub end : q.tail ≤ used
    pub bounded : used ≤ q_size
    pub laid : Laid law q.mem q.head q.tail ms
    pub counted : q.size ≡ length ms

  pub Lane-Holds : (q : Queue Msg) (ms : List Msg) (used : ℕ) → Lane q ms used → Holds law q ms
  Lane-Holds q ms used l = straight l.unrolled l.low (omega arith) l.laid l.counted

  -- A ready message that fits before the new bound is taken in.
  pub enqueue-Lane :
      (base : ℕ) (q : Queue Msg) (ms : List Msg) (item : Msg) (used more : ℕ)
      → Lane q ms used
      → IsReady item
      → used + msg_size item ≤ more
      → more ≤ q_size
      → (q' : Queue Msg) × (a : ℕ) × (enqueue api base q item ≡ done (true, after item, q'))
        × Lane q' (ms ++ (image item a ∷ [])) more
  enqueue-Lane base q ms item used more l ready fits below =
      let bound = Laid-le law q.mem q.head q.tail ms l.laid in
      let a = base + q.tail in
      let img = image item a in
      let fit : q.tail + msg_size item ≤ q_size = omega arith in
      (
        pushed law q q.tail img minus_one,
        a,
        enqueue_straight law base q item l.unrolled fit
            ∙ write_future_lem law base q item q.tail minus_one ready (omega arith) fit
            ∙ ap (λ k. done (true, after item, pushed law q q.tail img k)) l.unrolled,
        record {
          unrolled = refl;
          low = l.low;
          end = omega (arith, msg_size-image item a);
          bounded = below;
          laid = Laid-extend law q.mem q.head q.tail ms img (image-IsSound item a ready) l.laid;
          counted = omega (arith, length-append ms (img ∷ []), l.counted);
        },
      )

  -- The oldest message is taken out.
  pub dequeue-Lane :
      (base : ℕ) (q : Queue Msg) (m : Msg) (ms : List Msg) (used : ℕ)
      → Lane q (m ∷ ms) used
      → (p : ℕ) × (q' : Queue Msg) × (dequeue api base q ≡ done (some p, q'))
        × (load p q'.mem ≡ some (rebound (base + p) m))
        × Lane q' ms used
  dequeue-Lane base q m ms used l =
      let bound = Laid-le law q.mem (q.head + msg_size m) q.tail ms (l.laid).2 in
      let m' = rebound (base + q.head) m in
      let d =
        dequeue_at law base q q.head minus_one m (l.laid).1 (omega arith) (ground arith)
          (ground arith) (l.laid).0 (omega arith) in
      (
        q.head,
        popped law base q q.head m minus_one,
        d.0,
        load-store_self extent q.head m' q.mem,
        record {
          unrolled = refl;
          low = omega arith;
          end = l.end;
          bounded = l.bounded;
          laid =
              Laid-store law q.mem (q.head + msg_size m) q.tail q.head ms m'
                (inr (omega (arith, extent-rebound m (base + q.head), extent-le m (l.laid).1)))
                (l.laid).2;
          counted = omega (arith, l.counted);
        },
      )

  pub create_queue-Lane : Lane create_queue [] sizeof_queue
  unfolding create_queue
  create_queue-Lane = record {
    unrolled = refl;
    low = omega arith;
    end = omega arith;
    bounded = omega arith;
    laid = refl;
    counted = refl;
  }
