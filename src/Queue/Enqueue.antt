-- ===== src/Queue/Enqueue.antt =====
-- `Enqueue`: when a message fits, where it is written, and what the call returns.
pub mod Accept
use francois_gingras_master.Common.{
  ℕ, ◌+◌, ◌-◌, ◌≤◌, ◌<◌, ◌^◌, ◌≡◌, refl, ap, sym, ◌∙◌, inl, inr, Bool, true, false, ◌&&◌, ◌||◌,
  Outcome, done, List, [], ◌∷◌, ◌++◌, append_assoc, arith, length, length-append, ltb, leb, ◌==◌,
  if◌then◌else◌, minus_one, add32, int_gt,
}
use francois_gingras_master.Queue.{
  Queue, sizeof_queue, predict, is_full, commit, write_future, enqueue,
}
use francois_gingras_master.Queue.Api.{MessageApi, IsLawful, q_size}
use francois_gingras_master.Queue.Memory.{store}
use francois_gingras_master.Queue.Invariant.{
  Holds, straight, wrapped, Laid, Laid-le, Laid-store, Laid-extend,
}

-- Whether `n` more bytes fit: behind the tail, or at the start if nothing has rolled over yet.
abbrev pub has_room : {M : Type 0} → Queue M → ℕ → Bool
has_room q n =
    if q.rollover_position == minus_one
    then leb (q.tail + n) q_size || leb (sizeof_queue + n) q.head
    else leb (q.tail + n) q.head

-- The offset that the next message gets.
abbrev pub place : {M : Type 0} → Queue M → ℕ → ℕ
place q n =
    if q.rollover_position == minus_one && ltb q_size (q.tail + n) then sizeof_queue else q.tail

module _ {api : MessageApi} (law : IsLawful api) where
  open api use {Msg, msg_size, extent}
  open law use {
    IsReady, IsSound, image, after, extent-le, msg_size-small, write_at-image, image-IsSound,
    msg_size-image,
  }

  -- The queue after a message was written at `p`.
  abbrev pub pushed : Queue Msg → ℕ → Msg → ℕ → Queue Msg
  pushed q p m rollover = record {
    mem = store extent p m q.mem;
    head = q.head;
    tail = p + msg_size m;
    size = add32 q.size 1;
    rollover_position = rollover;
  }

  commit_lem :
      (q : Queue Msg) (item written : Msg) (p future_tail has_to_rollover : ℕ)
      → future_tail ≡ p + msg_size written
      → p + extent written ≤ q_size
      → commit api q (written, item) p future_tail has_to_rollover
        ≡ done (
          true,
          item,
          pushed q p written
              (if int_gt has_to_rollover 0 then has_to_rollover else q.rollover_position),
        )
  unfolding commit
  commit_lem q item written p ft has e h = ground arith

  pub write_future_lem :
      (base : ℕ) (q : Queue Msg) (item : Msg) (p has_to_rollover : ℕ)
      → IsReady item
      → sizeof_queue ≤ p
      → p + msg_size item ≤ q_size
      → write_future api base q item (p + msg_size item) has_to_rollover
        ≡ done (
          true,
          after item,
          pushed q p
              (image item (base + p))
              (if int_gt has_to_rollover 0 then has_to_rollover else q.rollover_position),
        )
  unfolding write_future
  write_future_lem base q item p has s h k =
      let e : p + msg_size item - msg_size item ≡ p = omega arith in
      let l : ltb (p + msg_size item) (2 ^ 31) ≡ true = ground arith in
      let r : leb (sizeof_queue + msg_size item) (p + msg_size item) ≡ true = ground arith in
      rw (l, r, e, write_at-image item (base + p) s)
        (commit_lem q (after item) (image item (base + p)) p (p + msg_size item) has
          (omega (arith, msg_size-image item (base + p)))
          (omega (
            arith,
            msg_size-image item (base + p),
            extent-le (image item (base + p)) (image-IsSound item (base + p) s),
          )))

  -- What a successful call leaves.
  abbrev pub Accepts : ℕ → Queue Msg → List Msg → Msg → Type 0
  Accepts base q ms item =
      (q' : Queue Msg) × (enqueue api base q item ≡ done (true, after item, q'))
      × Holds law q' (ms ++ (image item (base + place q (msg_size item)) ∷ []))

  -- Where `Enqueue` writes, or that it refuses.
  pub enqueue_straight :
      (base : ℕ) (q : Queue Msg) (item : Msg)
      → q.rollover_position ≡ minus_one
      → q.tail + msg_size item ≤ q_size
      → enqueue api base q item ≡ write_future api base q item (q.tail + msg_size item) minus_one
  unfolding enqueue
  enqueue_straight base q item r h = ground arith

  enqueue_rollover :
      (base : ℕ) (q : Queue Msg) (item : Msg)
      → IsReady item
      → q.rollover_position ≡ minus_one
      → q.tail ≤ q_size
      → q_size < q.tail + msg_size item
      → sizeof_queue + msg_size item ≤ q.head
      → enqueue api base q item ≡ write_future api base q item (sizeof_queue + msg_size item) q.tail
  unfolding enqueue
  enqueue_rollover base q item s r t h k = ground (arith, msg_size-small item s)

  enqueue_wrapped :
      (base : ℕ) (q : Queue Msg) (item : Msg)
      → q.rollover_position ≤ q_size
      → q.tail + msg_size item ≤ q.head
      → q.head ≤ q_size
      → enqueue api base q item ≡ write_future api base q item (q.tail + msg_size item) minus_one
  unfolding enqueue
  enqueue_wrapped base q item r h k = ground arith

  enqueue_full :
      (base : ℕ) (q : Queue Msg) (item : Msg)
      → IsReady item
      → q.tail ≤ q_size
      → q.head ≤ q_size
      → has_room q (msg_size item) ≡ false
      → enqueue api base q item ≡ done (false, item, q)
  unfolding enqueue
  enqueue_full base q item s t h r = ground (arith, msg_size-small item s)
