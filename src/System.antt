-- ===== src/System.antt =====
-- TaskSystem/src/System/System.c: the queues of all tasks and the calls that tasks make.
-- `Shared` is what all processes see, `Process` the table that each has of its own.
pub mod Repository
pub mod Delivery
pub mod History
pub mod Waking
pub mod Lifecycle
use francois_gingras_master.Common.{
  ℕ, ◌+◌, Bool, true, false, ℤ, negsuc, Option, none, some, List, replicate, set, get_elem?,
  Outcome, done, fault, or_fault, ◌>>=◌, ◌==◌, if◌then◌else◌, add32,
}
use francois_gingras_master.Queue.{Queue, create_queue, enqueue, dequeue, peek, is_empty}
use francois_gingras_master.Queue.Memory.{load}
use francois_gingras_master.Messages.Message.{Message, header, clone, message_api}

-- MAX_TASK
abbrev pub max_task : ℕ
max_task = 100

-- The segment of task t has the name "/TS_T<t>"; `linked` says which names exist.
pub record Shared : Type 0 where
  pub next_task_id : ℕ
  pub segments : ℕ → Queue Message
  pub linked : ℕ → Bool

-- TaskTable: where this process has mapped each task's segment, `none` for NULL.
pub record Process : Type 0 where
  pub task_table : List (Option ℕ)

abbrev pub update {ℓ} : {A : Type ℓ} → (ℕ → A) → ℕ → A → ℕ → A
update f t a u = if u == t then a else f u

abbrev pub with_segment : Shared → ℕ → Queue Message → Shared
with_segment s t q = record s { segments = update s.segments t q }

-- The local part of System_initialize.
unfoldable pub system_initialize : Process
system_initialize = record { task_table = replicate max_task none }

-- AcquireQueue. `at` is the address that `mmap` picks.
unfoldable pub acquire_queue : Shared → ℕ → ℕ → Option ℕ
acquire_queue s t at = if s.linked t then some at else none

acquire_entry : Shared → Process → ℕ → ℕ → Option ℕ → Process
acquire_entry s p t at none = record { task_table = set p.task_table t (acquire_queue s t at) }
acquire_entry s p t at (some base) = p

-- An entry behind the table is a fault.
unfoldable pub check_q_and_acquire : Shared → Process → ℕ → ℕ → Outcome Process
unfolding acquire_entry acquire_queue
check_q_and_acquire s p t at = do
  entry ← or_fault (get_elem? p.task_table t)
  done (acquire_entry s p t at entry)

-- `Enqueue`, which returns 0 for a NULL queue.
send_to : Shared → Option ℕ → Message → ℕ → Outcome (Bool × Message × Shared)
send_to s none msg t = done (false, msg, s)
send_to s (some base) msg t = do
  (flag, msg', q) ← enqueue message_api base (s.segments t) msg
  done (flag, msg', with_segment s t q)

unfoldable pub send :
    Shared → Process → ℕ → Message → ℕ → Outcome (Bool × Message × Shared × Process)
unfolding send_to
send s p at msg t = do
  p' ← check_q_and_acquire s p t at
  entry ← or_fault (get_elem? p'.task_table t)
  (flag, msg', s') ← send_to s entry msg t
  done (flag, msg', s', p')

found_at : Shared → ℕ → ℕ → Queue Message → Option ℕ → Outcome (Option (ℕ × Message) × Shared)
found_at s t base q none = done (none, with_segment s t q)
found_at s t base q (some pos) =
    or_fault (load pos q.mem) >>= λ m. done (some (base + pos, m), with_segment s t q)

-- `Dequeue` through the table. It locks the mutex before it tests for NULL, so a NULL queue is a
-- fault. The pointer that it returns is an address.
unfoldable pub dequeue_entry : Shared → Process → ℕ → Outcome (Option (ℕ × Message) × Shared)
unfolding found_at
dequeue_entry s p t = do
  entry ← or_fault (get_elem? p.task_table t)
  base ← or_fault entry
  (found, q) ← dequeue message_api base (s.segments t)
  found_at s t base q found

-- With no message the error text is printed from a NULL message: a fault.
unfoldable pub receive : Shared → Process → ℕ → Outcome (Message × Shared)
receive s p t = do
  (found, s') ← dequeue_entry s p t
  (at, msg) ← or_fault found
  copy ← clone at msg
  done (copy, s')

unfoldable pub drop_msg : Shared → Process → ℕ → ℕ → Outcome (Shared × Process)
drop_msg s p at t = do
  p' ← check_q_and_acquire s p t at
  (found, s') ← dequeue_entry s p' t
  done (s', p')

tag_at : List (ℕ × Message) → Process → Option ℕ → Outcome (ℤ × Process)
tag_at mem p none = done (negsuc 0, p)
tag_at mem p (some pos) = or_fault (load pos mem) >>= λ m. done ((header m).tag, p)

-- `Peek` locks before it tests for NULL too. -1 says that there is no message.
unfoldable pub get_msg_tag : Shared → Process → ℕ → ℕ → Outcome (ℤ × Process)
unfolding tag_at
get_msg_tag s p at t = do
  p' ← check_q_and_acquire s p t at
  entry ← or_fault (get_elem? p'.task_table t)
  base ← or_fault entry
  tag_at (s.segments t).mem p' (peek message_api (s.segments t))

unfoldable pub get_next_task_id : Shared → ℕ × Shared
get_next_task_id s = (s.next_task_id, record s { next_task_id = add32 s.next_task_id 1 })

-- CreateQueue maps the segment at `at` and resets it, also one that exists.
unfoldable pub create_msg_q : Shared → Process → ℕ → ℕ → Outcome (Shared × Process)
create_msg_q s p at t = do
  old ← or_fault (get_elem? p.task_table t)
  done (
    record s { segments = update s.segments t create_queue; linked = update s.linked t true },
    record { task_table = set p.task_table t (some at) },
  )

pub empty_at : Queue Message → Option ℕ → Bool
empty_at q none = false
empty_at q (some base) = is_empty message_api q

-- `IsEmpty`, which returns 0 for a NULL queue.
unfoldable pub message_immediate : Shared → Process → ℕ → ℕ → Outcome (Bool × Process)
unfolding empty_at
message_immediate s p at t = do
  p' ← check_q_and_acquire s p t at
  entry ← or_fault (get_elem? p'.task_table t)
  done (empty_at (s.segments t) entry, p')
