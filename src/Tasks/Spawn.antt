-- ===== src/Tasks/Spawn.antt =====
-- What every task's constructor does before it sets its fields (X_create in
-- TaskSystem/include/TaskSystem/Tasks/X/generated.h): take the next id and create its queue. The
-- thread that it then starts runs the task's `start`. `malloc` and `pthread_create` are taken to
-- succeed.
use francois_gingras_master.Common.{
  ℕ, ◌+◌, ◌%◌, ◌^◌, ◌<◌, ◌≡◌, refl, ◌≢◌, true, false, some, [], length, set, get_elem?,
  get_elem?-some, get_elem?-set_self, get_elem?-set_ne, length-set, Outcome, done, ◌>>=◌, ◌==◌,
  ==_self, arith,
}
use francois_gingras_master.Queue.{create_queue}
use francois_gingras_master.Queue.Invariant.{create_queue-Holds}
use francois_gingras_master.Messages.Message.Law.{message_law}
use francois_gingras_master.System.{
  Shared, Process, update, get_next_task_id, create_msg_q, max_task,
}
use francois_gingras_master.System.Delivery.{Carries, IsMapped}

-- `at` is where `mmap` puts the new queue.
unfoldable pub spawn : Shared → Process → ℕ → Outcome (ℕ × Shared × Process)
spawn s p at = do
  let (id, s') = get_next_task_id s
  (s'', p') ← create_msg_q s' p at id
  done (id, s'', p')

-- A task that is created by a process with a table of 100 entries while ids below 100 are left
-- gets the next id. Its queue is mapped and empty, and no other task's queue and no other entry
-- of the process's table change.
pub spawn_fresh :
    (s : Shared) (p : Process) (at : ℕ)
    → length p.task_table ≡ max_task
    → s.next_task_id < max_task
    → (s' : Shared) × (p' : Process) × (spawn s p at ≡ done (s.next_task_id, s', p'))
      × (s'.next_task_id ≡ s.next_task_id + 1)
      × IsMapped p' s.next_task_id at
      × (length p'.task_table ≡ max_task)
      × Carries (s'.segments s.next_task_id) []
      × (s'.linked s.next_task_id ≡ true)
      × ((u : ℕ)
          → s.next_task_id ≢ u
          → (s'.segments u ≡ s.segments u)
            × (s'.linked u ≡ s.linked u)
            × (get_elem? p'.task_table u ≡ get_elem? p.task_table u))
unfolding spawn get_next_task_id create_msg_q
spawn_fresh s p at long lt =
    let id = s.next_task_id in
    let (old, e) = get_elem?-some p.task_table id (omega arith) in
    (
      record {
        next_task_id = (id + 1) % 2 ^ 32;
        segments = update s.segments id create_queue;
        linked = update s.linked id true;
      },
      record { task_table = set p.task_table id (some at) },
      rw e refl,
      omega arith,
      get_elem?-set_self p.task_table id (some at) (omega arith),
      rw (length-set p.task_table id (some at)) long,
      rw (==_self id) ([], create_queue-Holds message_law, tt),
      rw (==_self id) refl,
      λ u other.
          let no : (u == id) ≡ false = ground arith in
          (rw no refl, rw no refl, get_elem?-set_ne p.task_table (some at) other),
    )
