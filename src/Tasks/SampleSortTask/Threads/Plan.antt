-- ===== src/Tasks/SampleSortTask/Threads/Plan.antt =====
-- What holds of all threads of a sample sort between two turns.
use mathlib.Core.List.{Permᴰ}
use francois_gingras_master.Common.{
  ℕ, suc, ◌+◌, ◌*◌, ◌≤◌, ◌≡◌, ◌⊎◌, some, none, pos, List, [], ◌∷◌, ◌++◌, map, replicate, length,
  get_elem?,
}
use francois_gingras_master.Queue.{Queue}
use francois_gingras_master.Messages.Header.{Heap, Ptr}
use francois_gingras_master.Messages.RefTwoDimIntArrayMsg.{RefTwoDimIntArrayMsg}
use francois_gingras_master.Messages.DoneMsg.{DoneMsg}
use francois_gingras_master.Messages.Message.{Message, signal, ref_two_dim, header}
use francois_gingras_master.Messages.Message.Law.{IsReady}
use francois_gingras_master.System.Delivery.Lane.{Bears}
use francois_gingras_master.Tasks.SampleSortTask.{SubArrays}
use francois_gingras_master.Tasks.SampleSortTask.Receive.{SampleSort}
use francois_gingras_master.Tasks.SampleSortTask.Rounds.{AllRefer, AreReplies}
use francois_gingras_master.Tasks.SampleSortTask.Threads.{
  Machine, BucketThread, Post, the_topology, the_reference, the_splitters, the_signal, the_column,
  RootStep, clears, posts_from, collects, Threads,
}
use francois_gingras_master.Tasks.SampleSortTask.Threads.Stages.{
  has_replied, has_ended, pick_where, RootStage, posting, clearing, collecting, ending,
}
use francois_gingras_master.Tasks.SampleSortTask.Threads.Setting.{Plan, reply, Brings, BucketInv}

module _ (m : Machine) (P : Plan) where
  open P use {k, first, rest, root_id, ids, cells, refs, room}

  -- What the root does after a loop of posts.
  abbrev pub after_posts : Post → List RootStep
  after_posts the_column = collects (suc k) []
  after_posts the_signal = collects (suc k) (posts_from the_column 0 (suc k) (collects (suc k) []))
  after_posts the_splitters =
      clears
      ∷ posts_from the_signal 0 (suc k)
          (collects (suc k) (posts_from the_column 0 (suc k) (collects (suc k) [])))
  after_posts the_reference = posts_from the_splitters 0 (suc k) (
      clears
      ∷ posts_from the_signal 0 (suc k)
          (collects (suc k) (posts_from the_column 0 (suc k) (collects (suc k) []))))
  after_posts the_topology = posts_from the_reference 0 (suc k) (
      posts_from the_splitters 0 (suc k) (
        clears
        ∷ posts_from the_signal 0 (suc k)
            (collects (suc k) (posts_from the_column 0 (suc k) (collects (suc k) [])))))

  abbrev pub root_todo : RootStage → List RootStep
  root_todo (posting p x n) = posts_from p x n (after_posts p)
  root_todo clearing = after_posts the_splitters
  root_todo (collecting n) = collects n (posts_from the_column 0 (suc k) (collects (suc k) []))
  root_todo (ending n) = collects n []

  -- It is there, or has left the message_notify before a `receive` behind.
  abbrev pub RootAt : RootStage → List RootStep → Type 0
  RootAt stage todo =
      (todo ≡ root_todo stage)
      ⊎ ((after : List RootStep) × (root_todo stage ≡ RootStep.notifies ∷ RootStep.receives ∷ after)
          × (todo ≡ RootStep.receives ∷ after))

  abbrev pub IsStage : RootStage → Type 0
  IsStage (posting p x n) = x + n ≡ suc k
  IsStage clearing = Unit {0}
  IsStage (collecting n) = n ≤ suc k
  IsStage (ending n) = n ≤ suc k

  -- The root's array: the replies that it has, and empty entries for the others.
  abbrev pub Slots : SampleSort → List RefTwoDimIntArrayMsg → ℕ → Type 0
  Slots st ms n =
      (st.buckets_values_arr ≡ map some ms ++ replicate n none)
      × (st.buckets_values_arr_count ≡ length ms)
      × (length ms + n ≡ suc k)

  abbrev pub Gathered : RootStage → SampleSort → List RefTwoDimIntArrayMsg → Type 0
  Gathered (posting the_signal x n) st ms = (ms ≡ []) × Slots st ms (suc k)
  Gathered (collecting n) st ms = Slots st ms n
  Gathered (posting the_column x n) st ms = ⊥
  Gathered (ending n) st ms = ⊥
  Gathered _ st ms = ms ≡ []

  abbrev pub AreDone : List DoneMsg → Type 0
  AreDone [] = Unit {0}
  AreDone (d ∷ ds) = (d.tag ≡ pos 8) × AreDone ds

  -- The `done` messages that the root has received.
  abbrev pub Finished : RootStage → ℕ → ℕ → Type 0
  Finished (posting the_column x n) there total = there ≡ total
  Finished (ending n) there total = there + suc k ≡ total + n
  Finished _ there total = ⊥

  -- Until all replies are in the root's queue has replies only, and then `done` messages only.
  pub data RootInv (stage : RootStage) (rs : List SubArrays) (heap : Heap) (st : SampleSort)
      (q : Queue Message) (total : ℕ) : Type 0 where
    early :
        (got there : List RefTwoDimIntArrayMsg) (used : ℕ)
        → AllRefer heap (got ++ there) rs
        → AreReplies there
        → Bears q (map ref_two_dim there) used
        → used ≤ room + 100 * length rs
        → Gathered stage st got
        → RootInv stage rs heap st q total
    late :
        (got : List RefTwoDimIntArrayMsg) (there : List DoneMsg) (used : ℕ)
        → length rs ≡ suc k
        → AllRefer heap got rs
        → st.buckets_values_arr ≡ map some got
        → AreDone there
        → Bears q (map signal there) used
        → used ≤ room + 100 * (suc k + total)
        → Finished stage (length there) total
        → RootInv stage rs heap st q total

  -- The message objects of the first round.
  pub record IsTopology (stage : RootStage) (msg : Message) : Type 0 where
    pub ready : IsReady msg
    pub brings :
        (heap : Heap) (rs : List SubArrays) (i : ℕ) (r : ℕ × Ptr)
        → Brings m P heap rs i r the_topology msg
    pub sized : (x n : ℕ) → stage ≡ posting the_topology x n → (header msg).msg_size ≤ 600 + 400 * x

  pub record IsSplitters (msg : Message) : Type 0 where
    pub ready : IsReady msg
    pub brings :
        (heap : Heap) (rs : List SubArrays) (i : ℕ) (r : ℕ × Ptr)
        → Brings m P heap rs i r the_splitters msg
    pub sized : (header msg).msg_size ≤ 50000

  pub record Inv (c : Threads) : Type 0 where
    pub rs : List SubArrays
    pub stage : RootStage
    pub data_at : get_elem? c.heap P.block ≡ some cells
    pub table : c.process ≡ P.process
    pub self : c.root.state.task_id ≡ root_id
    pub known_ids : c.root.buckets ≡ ids
    pub known_refs : c.root.refs ≡ refs
    pub todo_at : RootAt stage c.root.todo
    pub is_stage : IsStage stage
    pub topo : IsTopology stage c.root.topo_msg
    pub splitters : IsSplitters c.root.splitters_msg
    pub count : length c.buckets ≡ suc k
    pub each :
        (i : ℕ) (t : BucketThread)
        → get_elem? c.buckets i ≡ some t
        → BucketInv m P stage rs c.heap i t (c.shared.segments t.state.task_id)
    pub arrived : Permᴰ (pick_where has_replied c.buckets (map (reply m P) refs)) rs
    pub gathers :
        RootInv stage rs c.heap c.root.state
          (c.shared.segments root_id)
          (length (pick_where has_ended c.buckets refs))
