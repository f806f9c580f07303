-- ===== src/Queue.antt =====
-- TaskSystem/src/MsgQueue/CircularMsgQ.c: the circular queue in a shared memory segment.
-- Each operation runs under the queue's mutex, so it is one step.
pub mod Api
pub mod Memory
pub mod Invariant
pub mod Enqueue
pub mod Dequeue
pub mod Fifo
pub mod Lane
use francois_gingras_master.Common.{
  ℕ, ◌+◌, ◌-◌, ◌^◌, Bool, true, false, ◌&&◌, Option, none, some, List, [], Outcome, done, fault,
  ◌>>=◌, or_fault, ltb, leb, ◌==◌, if◌then◌else◌, minus_one, add32, int_gt,
}
use Api.{MessageApi, q_size}
use Memory.{store, load}

-- sizeof(struct Queue): a pthread_mutex_t of 40 bytes and four ints.
abbrev pub sizeof_queue : ℕ
sizeof_queue = 56

-- `mem` is the segment behind the struct. `rollover_position` is the bit pattern of the int.
pub record Queue (M : Type 0) : Type 0 where
  pub mem : List (ℕ × M)
  pub head : ℕ
  pub tail : ℕ
  pub size : ℕ
  pub rollover_position : ℕ

-- The segment holds nothing that is read before it is written.
unfoldable pub create_queue : {M : Type 0} → Queue M
create_queue = record {
  mem = [];
  size = 0;
  head = sizeof_queue;
  tail = sizeof_queue;
  rollover_position = minus_one;
}

module _ (api : MessageApi) where
  open api use {Msg, tid, msg_size, extent, write_at, rebinder}

  unfoldable pub is_empty_not_safe : Queue Msg → Bool
  is_empty_not_safe q = q.size == 0

  unfoldable pub is_empty : Queue Msg → Bool
  is_empty q = q.size == 0

  -- The result is a pointer into the segment, as an offset; `none` is NULL.
  unfoldable pub peek : Queue Msg → Option ℕ
  unfolding is_empty_not_safe
  peek q =
      if is_empty_not_safe q
      then none
      else some (if q.head == q.rollover_position then sizeof_queue else q.head)

  -- future_tail and has_to_rollover.
  unfoldable pub predict : Queue Msg → ℕ → ℕ × ℕ
  predict q n =
      if q.rollover_position == minus_one && int_gt (add32 q.tail n) q_size
      then (add32 sizeof_queue n, q.tail)
      else (add32 q.tail n, minus_one)

  unfoldable pub is_full : Queue Msg → ℕ → ℕ → Bool
  is_full q future_tail has_to_rollover =
      if q.rollover_position == minus_one
      then (if has_to_rollover == minus_one then false else ltb q.head future_tail)
      else ltb q.head future_tail

  -- The stores after `writeAt`. A write behind the segment is a fault.
  unfoldable pub commit : Queue Msg → Msg × Msg → ℕ → ℕ → ℕ → Outcome (Bool × Msg × Queue Msg)
  commit q (written, item') at future_tail has_to_rollover =
      if leb (at + extent written) q_size
      then done (
        true,
        item',
        record {
          mem = store extent at written q.mem;
          head = q.head;
          tail = future_tail;
          size = add32 q.size 1;
          rollover_position =
              if int_gt has_to_rollover 0 then has_to_rollover else q.rollover_position;
        },
      )
      else fault

  -- Write to future. `base` is where the caller has mapped the segment. A write before the end of
  -- the struct is a fault.
  unfoldable pub write_future : ℕ → Queue Msg → Msg → ℕ → ℕ → Outcome (Bool × Msg × Queue Msg)
  unfolding commit
  write_future base q item future_tail has_to_rollover =
      if ltb future_tail (2 ^ 31) && leb (sizeof_queue + msg_size item) future_tail
      then (do
        w ← write_at item (base + (future_tail - msg_size item))
        commit q w (future_tail - msg_size item) future_tail has_to_rollover)
      else fault

  -- The flag is the C result, beside the item and the queue afterwards.
  unfoldable pub enqueue : ℕ → Queue Msg → Msg → Outcome (Bool × Msg × Queue Msg)
  unfolding predict is_full
  enqueue base q item =
      let (future_tail, has_to_rollover) = predict q (msg_size item) in
      if is_full q future_tail has_to_rollover
      then done (false, item, q)
      else write_future base q item future_tail has_to_rollover

  -- Rebind function. The message has left the queue by then, also if there is no mapping.
  unfoldable pub rebind_at :
      ℕ → Queue Msg → ℕ → Msg → Option (ℕ → Msg → Outcome Msg) → Outcome (Option ℕ × Queue Msg)
  rebind_at base q read_pos m none = done (none, q)
  rebind_at base q read_pos m (some f) = do
    m' ← f (base + read_pos) m
    done (some read_pos, record q { mem = store extent read_pos m' q.mem })

  unfoldable pub dequeue : ℕ → Queue Msg → Outcome (Option ℕ × Queue Msg)
  unfolding is_empty_not_safe rebind_at
  dequeue base q = if is_empty_not_safe q then done (none, q) else (do
    let wraps = q.head == q.rollover_position
    let read_pos = if wraps then sizeof_queue else q.head
    m ← or_fault (load read_pos q.mem)
    entry ← rebinder (tid m)
    rebind_at base
        (record q {
          head = add32 read_pos (msg_size m);
          size = q.size - 1;
          rollover_position = if wraps then minus_one else q.rollover_position;
        })
        read_pos m entry)
