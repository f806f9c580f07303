-- ===== src/Tasks/SampleSortTask/Threads/SameRoot.antt =====
-- What a send of the root leaves as it was.
use francois_gingras_master.Common.{ℕ, ◌≡◌, refl, List, ◌∷◌, length}
use francois_gingras_master.Queue.{Queue}
use francois_gingras_master.Messages.Header.{Heap}
use francois_gingras_master.Messages.Message.{Message}
use francois_gingras_master.Tasks.SampleSortTask.{SubArrays}
use francois_gingras_master.Tasks.SampleSortTask.Receive.{SampleSort}
use francois_gingras_master.Tasks.SampleSortTask.Threads.{
  Machine, Post, the_topology, the_reference, the_splitters, the_signal, the_column, RootThread,
  keep_sent,
}
use francois_gingras_master.Tasks.SampleSortTask.Threads.Plan.{
  RootInv, early, late, Gathered, Finished,
}
use francois_gingras_master.Tasks.SampleSortTask.Threads.Setting.{Plan}
use francois_gingras_master.Tasks.SampleSortTask.Threads.Stages.{posting, owed_from, owed_after}

pub owed_from_lem : (p : Post) → owed_from p ≡ p ∷ owed_after p
owed_from_lem the_topology = refl
owed_from_lem the_reference = refl
owed_from_lem the_splitters = refl
owed_from_lem the_signal = refl
owed_from_lem the_column = refl

-- Only the message objects change.
pub record SameRoot (r r' : RootThread) : Type 0 where
  pub state_same : r'.state ≡ r.state
  pub buckets_same : r'.buckets ≡ r.buckets
  pub refs_same : r'.refs ≡ r.refs
  pub todo_same : r'.todo ≡ r.todo

pub keep_sent-SameRoot :
    (m : Machine) (p : Post) (msg : Message) (r : RootThread) → SameRoot r (keep_sent m p msg r)
unfolding keep_sent
keep_sent-SameRoot m the_topology msg r = record {
  state_same = refl;
  buckets_same = refl;
  refs_same = refl;
  todo_same = refl;
}
keep_sent-SameRoot m the_reference msg r = record {
  state_same = refl;
  buckets_same = refl;
  refs_same = refl;
  todo_same = refl;
}
keep_sent-SameRoot m the_splitters msg r = record {
  state_same = refl;
  buckets_same = refl;
  refs_same = refl;
  todo_same = refl;
}
keep_sent-SameRoot m the_signal msg r = record {
  state_same = refl;
  buckets_same = refl;
  refs_same = refl;
  todo_same = refl;
}
keep_sent-SameRoot m the_column msg r = record {
  state_same = refl;
  buckets_same = refl;
  refs_same = refl;
  todo_same = refl;
}

-- What the root has gathered does not depend on how far a loop of posts is.
pub RootInv_next :
    (m : Machine) (P : Plan) (p : Post) (x n y k : ℕ) (rs : List SubArrays) (heap : Heap)
    (st : SampleSort) (q : Queue Message) (total : ℕ)
    → RootInv m P (posting p x n) rs heap st q total
    → RootInv m P (posting p y k) rs heap st q total
RootInv_next m P p x n y k rs heap st q total (early got there used a t b u g) =
    early got there used a t b u (gathered p g)
  where
    gathered :
        (p : Post) → Gathered m P (posting p x n) st got → Gathered m P (posting p y k) st got
    gathered the_topology g = g
    gathered the_reference g = g
    gathered the_splitters g = g
    gathered the_signal g = g
    gathered the_column g = g
RootInv_next m P p x n y k rs heap st q total (late got there used full a arr d b u f) =
    late got there used full a arr d b u (finished p f)
  where
    finished :
        (p : Post)
        → Finished m P (posting p x n) (length there) total
        → Finished m P (posting p y k) (length there) total
    finished the_topology f = f
    finished the_reference f = f
    finished the_splitters f = f
    finished the_signal f = f
    finished the_column f = f
