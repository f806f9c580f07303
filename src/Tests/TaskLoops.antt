-- ===== src/Tests/TaskLoops.antt =====
-- The theorems on the loops of the tasks.
use francois_gingras_master.Common.{
  ℕ, ◌≡◌, ◌≢◌, refl, true, inl, inr, none, pos, [], ◌∷◌, replicate, length, length-replicate,
  get_elem?, done, arith,
}
use francois_gingras_master.Queue.{create_queue}
use francois_gingras_master.Messages.RequestMsg.{RequestMsg}
use francois_gingras_master.Messages.ResponseMsg.{ResponseMsg}
use francois_gingras_master.Messages.Message.{response}
use francois_gingras_master.System.{Shared, Process}
use francois_gingras_master.System.Delivery.{Carries}
use francois_gingras_master.Tasks.Dispatch.{served, receive_by}
use francois_gingras_master.Tasks.Spawn.{spawn, spawn_fresh}
use francois_gingras_master.System.Delivery.{IsMapped}
use francois_gingras_master.Tasks.DatabaseTask.{Database, handle_request, respond}
use francois_gingras_master.Tasks.DatabaseTask.Requests.{IsTable}
use francois_gingras_master.Tasks.DatabaseTask.Loop.{taken, serve_round}
use francois_gingras_master.Tasks.ClientTask.{build_request}
use francois_gingras_master.Tasks.ClientTask.Loop.{Client, ask, reaction, exchange}
use francois_gingras_master.Tests.Samples.{
  everywhere, one_message, mapped_both, nothing-Carries, blank_queue-room, blank_entries,
}
use francois_gingras_master.Tests.Database.{table, table-IsTable}

abbrev client : Client
client = record { task_id = 1 }

exchange_example :
    (m : RequestMsg) × (db' : Database) × (res : ResponseMsg) × (s1 : Shared) × (s2 : Shared)
    × (s3 : Shared) × (build_request 1 2 7 (replicate 48 0) ≡ done m)
    × (ask client 2 7 (replicate 48 0) (pos 3) (everywhere create_queue) mapped_both 0
        ≡ done (s1, mapped_both))
    × (serve_round table s1 mapped_both 0 0 3 ≡ done (served db' s2 mapped_both))
    × (handle_request table (taken m) ≡ done db')
    × IsTable db'
    × (respond db' ≡ done (res, pos 1))
    × Carries (s2.segments 1) (response res ∷ [])
    × (receive_by reaction client s2 mapped_both 0 1 ≡ done (served client s3 mapped_both))
    × Carries (s3.segments 3) []
    × Carries (s3.segments 1) []
exchange_example =
    exchange client 2 7 (replicate 48 0) table (everywhere create_queue) mapped_both mapped_both 0 0
      0 0 4096 8192 4096 8192 3 (length-replicate {A = ℕ} 48 0) (inr (inl refl)) table-IsTable
      (λ e. absurd (omega arith)) refl refl refl refl nothing-Carries nothing-Carries
      blank_queue-room blank_queue-room

abbrev blank : Process
blank = record { task_table = replicate 100 none }

spawn_fresh_example :
    (s' : Shared) × (p' : Process) × (spawn (everywhere one_message) blank 4096 ≡ done (4, s', p'))
    × (s'.next_task_id ≡ 5)
    × IsMapped p' 4 4096
    × (length p'.task_table ≡ 100)
    × Carries (s'.segments 4) []
    × (s'.linked 4 ≡ true)
    × ((u : ℕ)
        → 4 ≢ u
        → (s'.segments u ≡ one_message)
          × (s'.linked u ≡ true)
          × (get_elem? p'.task_table u ≡ get_elem? blank.task_table u))
spawn_fresh_example =
    spawn_fresh (everywhere one_message) blank 4096 (blank_entries 100) (omega arith)
