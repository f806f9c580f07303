-- ===== src/System/Lifecycle.antt =====
-- System.c: System_create, System_acquire and destroy; DeleteQueue of
-- TaskSystem/src/MsgQueue/CircularMsgQ.c.
use francois_gingras_master.Common.{
  ℕ, zero, suc, ◌+◌, ◌-◌, ◌≤◌, ◌<◌, ◌≡◌, ◌⊎◌, refl, ◌∙◌, Bool, false, Bool-cases, inl, inr, none,
  some, List, [], ◌∷◌, length, set, get_elem?, get_elem?-set_self, get_elem?-lt, Outcome, done,
  fault, exits, ◌>>=◌, ◌==◌, if◌then◌else◌, arith,
}
use francois_gingras_master.Messages.Message.{Message}
use francois_gingras_master.System.{
  acquire_entry, send_to, Shared, Process, update, system_initialize, acquire_queue,
  check_q_and_acquire, send, max_task,
}
use francois_gingras_master.System.Repository.{Repository, clear_names, clear_names_fault}
use francois_gingras_master.System.Waking.{Sleepers, loop_wait_signal}

-- Which of the calls of the operating system and of the C library succeed.
pub record Answers : Type 0 where
  pub shm_open : Bool
  pub ftruncate : Bool
  pub mmap : Bool
  pub malloc : Bool
  pub task_id_lock : Bool
  pub sleepers_lock : Bool
  pub repository_mutex : Bool
  pub thread : Bool

-- What System_create leaves in the shared memory and in the process.
pub record Created : Type 0 where
  pub next_task_id : ℕ
  pub sleepers : Sleepers
  pub names : Repository
  pub process : Process

-- A call that fails ends the process.
abbrev pub must : Bool → Outcome (Unit {0})
must ok = if ok then done tt else exits

-- `memory` is what the shared memory held before; the conditions have no waiters yet.
unfoldable pub system_create : Answers → Repository → Outcome Created
system_create a memory = do
  opened ← must a.shm_open
  sized ← must a.ftruncate
  mapped ← must a.mmap
  allocated ← must a.malloc
  locked ← must a.task_id_lock
  guarded ← must a.sleepers_lock
  names ← clear_names memory 0 max_task
  known ← must a.repository_mutex
  started ← must a.thread
  done (record {
    next_task_id = 1;
    sleepers = record { shutdown_signal = 0; asleep = λ t. false };
    names = names;
    process = system_initialize;
  })

-- The result of `malloc` is not tested here.
unfoldable pub system_acquire : Answers → Outcome Process
system_acquire a = do
  opened ← must a.shm_open
  mapped ← must a.mmap
  if a.malloc then done system_initialize else fault

-- `shm_unlink` of a task's segment.
unfoldable pub delete_queue : Shared → ℕ → Shared
delete_queue s t = record s { linked = update s.linked t false }

-- The loop over `n` tasks from i on.
unfoldable pub delete_from : Shared → ℕ → ℕ → Shared
unfolding delete_queue
delete_from s i zero = s
delete_from s i (suc n) = delete_from (delete_queue s i) (i + 1) n

-- destroy waits for the loop's thread between the two.
unfoldable pub destroy : Shared → Sleepers → Shared × Sleepers
destroy s w = (delete_from s 1 (s.next_task_id - 1), record w { shutdown_signal = 1 })

-- With the 30 rows and 100 flags that the struct has, creating a system never returns: it ends
-- the process where a call fails before the names are cleared, and is undefined behaviour
-- otherwise, whatever the calls after that answer.
pub system_create-never :
    (a : Answers) (memory : Repository)
    → length memory.task_name ≡ 30
    → length memory.task_has_name ≡ 100
    → (system_create a memory ≡ exits) ⊎ (system_create a memory ≡ fault)
unfolding system_create
system_create-never a memory h k = elim (Bool-cases a.shm_open) [
  | inr e ↦ inl (rw e refl)
  | inl e1 ↦ elim (Bool-cases a.ftruncate) [
    | inr e ↦ inl (rw (e1, e) refl)
    | inl e2 ↦ elim (Bool-cases a.mmap) [
      | inr e ↦ inl (rw (e1, e2, e) refl)
      | inl e3 ↦ elim (Bool-cases a.malloc) [
        | inr e ↦ inl (rw (e1, e2, e3, e) refl)
        | inl e4 ↦ elim (Bool-cases a.task_id_lock) [
          | inr e ↦ inl (rw (e1, e2, e3, e4, e) refl)
          | inl e5 ↦ elim (Bool-cases a.sleepers_lock) [
            | inr e ↦ inl (rw (e1, e2, e3, e4, e5, e) refl)
            | inl e6 ↦ inr (rw (e1, e2, e3, e4, e5, e6, clear_names_fault memory h k) refl)
          ]
        ]
      ]
    ]
  ]
]

delete_from_outside :
    (n i : ℕ) (s : Shared) (t : ℕ)
    → (t < i) ⊎ (i + n ≤ t)
    → (delete_from s i n).linked t ≡ s.linked t
unfolding delete_from delete_queue
delete_from_outside zero i s t out = refl
delete_from_outside (suc n) i s t out =
    let no : (t == i) ≡ false = elim out [ inl a ↦ ground arith | inr b ↦ ground arith ] in
    let next : (t < i + 1) ⊎ (i + 1 + n ≤ t) = elim out [
      | inl a ↦ inl (omega arith)
      | inr b ↦ inr (omega arith)
    ] in
    delete_from_outside n (i + 1) (delete_queue s i) t next ∙ rw no refl

delete_from_within :
    (n i : ℕ) (s : Shared) (t : ℕ) → i ≤ t → t < i + n → (delete_from s i n).linked t ≡ false
unfolding delete_from delete_queue
delete_from_within zero i s t le lt = absurd (omega arith)
delete_from_within (suc n) i s t le lt = elim (Bool-cases (t == i)) [
  | inl same ↦
      let at : t ≡ i = ground arith in
      delete_from_outside n (i + 1) (delete_queue s i) t (inl (omega (arith, at))) ∙ rw same refl
  | inr other ↦
      let later : i + 1 ≤ t = ground arith in
      delete_from_within n (i + 1) (delete_queue s i) t later (omega arith)
]

delete_from-segments : (n i : ℕ) (s : Shared) → (delete_from s i n).segments ≡ s.segments
unfolding delete_from delete_queue
delete_from-segments zero i s = refl
delete_from-segments (suc n) i s = delete_from-segments n (i + 1) (delete_queue s i)

loop_wait_signal_shutdown :
    (states : List Shared) (p : Process) (w : Sleepers)
    → w.shutdown_signal ≡ 1
    → loop_wait_signal states p w ≡ done w
unfolding loop_wait_signal
loop_wait_signal_shutdown [] p w e = refl
loop_wait_signal_shutdown (s ∷ states) p w e = rw e refl

-- After destroy of a system, a process that has not mapped the queue of a task that had an id
-- from 1 on cannot send to it any more: send returns 0 and changes no queue. The other names and
-- all queues stay as they are, and the loop wakes nobody any more.
pub destroy-unlinks :
    (s : Shared) (w : Sleepers)
    → let s' = (destroy s w).0 in
      let w' = (destroy s w).1 in
      ((p : Process) (at : ℕ) (msg : Message) (t : ℕ)
        → 1 ≤ t
        → t < s.next_task_id
        → get_elem? p.task_table t ≡ some none
        → send s' p at msg t
          ≡ done (false, msg, s', record { task_table = set p.task_table t none }))
      × ((t : ℕ) → (t < 1) ⊎ (s.next_task_id ≤ t) → s'.linked t ≡ s.linked t)
      × (s'.segments ≡ s.segments)
      × ((states : List Shared) (p : Process) → loop_wait_signal states p w' ≡ done w')
unfolding destroy send check_q_and_acquire acquire_queue acquire_entry send_to
destroy-unlinks s w =
    let s' = (destroy s w).0 in
    let w' = (destroy s w).1 in
    (
      λ p at msg t le lt e.
          let gone : s'.linked t ≡ false =
            delete_from_within (s.next_task_id - 1) 1 s t le (omega arith) in
          let size : t < length p.task_table = get_elem?-lt p.task_table t none e in
          rw (e, gone, get_elem?-set_self p.task_table t none size) refl,
      λ t out. delete_from_outside (s.next_task_id - 1) 1 s t (elim out [
        | inl a ↦ inl a
        | inr b ↦ elim (Bool-cases (t == 0)) [
          | inl zero_id ↦ inl (ground arith)
          | inr other ↦ inr (ground arith)
        ]
      ]),
      delete_from-segments (s.next_task_id - 1) 1 s,
      λ states p. loop_wait_signal_shutdown states p w' refl,
    )
