-- ===== src/Tasks/SampleSortTask/Threads.antt =====
-- The threads of a sample sort: `start` of BucketTask.c and, once the buckets are created, `start` of
-- SampleSortTask.c, as what each thread has left to do. All threads are of one process. A schedule says whose turn it
-- is; a thread that waits for a message leaves everything as it is. The clock readings and what is
-- printed are left out; message_wait only yields the processor.
pub mod Stages
pub mod Setting
pub mod Races
pub mod Unhurried
pub mod Columns
pub mod Calm
pub mod Plan
pub mod Complete
pub mod Counting
pub mod Launch
pub mod Start
pub mod Runs
pub mod Ends
pub mod Moves
pub mod Turns
pub mod Progress
pub mod Collecting
pub mod Waits
pub mod SameRoot
pub mod Root
pub mod Builds
pub mod Posts
pub mod Done
pub mod Finishing
pub mod Replied
pub mod Replies
pub mod Change
pub mod Buckets
pub mod Takes
pub mod Brings
pub mod Frame
pub mod Picks
use francois_gingras_master.Common.{
  ℕ, zero, suc, ◌+◌, ◌/◌, Option, none, some, ℤ, pos, List, [], ◌∷◌, ◌++◌, map, drop, length, set,
  get_elem?, Outcome, done, or_fault, ◌>>=◌, if◌then◌else◌, Bool, true, false, leb, fault,
}
use francois_gingras_master.Messages.Header.{Heap, Ptr}
use francois_gingras_master.Messages.TopologyMsg.{TopologyMsg}
use francois_gingras_master.Messages.IntArrayMsg.{IntArrayMsg}
use francois_gingras_master.Messages.RefIntArrayMsg.{RefIntArrayMsg}
use francois_gingras_master.Messages.RefIntArrayMsg
use francois_gingras_master.Messages.DoneMsg.{DoneMsg}
use francois_gingras_master.Messages.DoneMsg
use francois_gingras_master.Messages.RefTwoDimIntArrayMsg.{RefTwoDimIntArrayMsg}
use francois_gingras_master.Messages.Message.{
  Message, topology, ref_int_array, int_array, signal, ref_two_dim,
}
use francois_gingras_master.System.{Shared, Process, send, message_immediate}
use francois_gingras_master.Tasks.Dispatch.{Received, waits, served, receive_by}
use francois_gingras_master.Tasks.Qsort.{Qsort}
use francois_gingras_master.Tasks.BucketTask.Receive.{Bucket, count_of}
use francois_gingras_master.Tasks.BucketTask.Receive
use francois_gingras_master.Tasks.BucketTask.RoundTwo.{send_sub_arrays, finish}
use francois_gingras_master.Tasks.SampleSortTask.{get_samples, get_splitters}
use francois_gingras_master.Tasks.SampleSortTask.Receive.{
  SampleSort, reaction, clear_replies, build_ref_to_bucket,
}
use francois_gingras_master.Tasks.SampleSortTask.RoundOne.{
  create_buckets, build_topology, build_splitters, data_refs,
}

-- What the blocks of `malloc` hold before they are written, and the library's sort.
pub record Machine : Type 0 where
  pub lib : Qsort
  pub at : ℕ → ℕ
  pub junk : ℤ
  pub topology_memory : TopologyMsg
  pub reference_memory : RefIntArrayMsg
  pub splitters_memory : IntArrayMsg
  pub signal_memory : DoneMsg
  pub reply_memory : RefTwoDimIntArrayMsg

pub data BucketStep : Type 0 where
  notifies receives sends_sub_arrays finishes : BucketStep

pub record BucketThread : Type 0 where
  pub state : Bucket
  pub todo : List BucketStep

-- `start` of BucketTask.c.
abbrev pub bucket_start : List BucketStep
bucket_start =
    notifies ∷ receives ∷ notifies ∷ receives ∷ notifies ∷ receives ∷ notifies ∷ receives
    ∷ sends_sub_arrays ∷ notifies ∷ receives ∷ finishes ∷ []

-- What the root sends to each bucket in turn.
pub data Post : Type 0 where
  the_topology the_reference the_splitters the_signal the_column : Post

pub data RootStep : Type 0 where
  posts : Post → ℕ → RootStep
  clears notifies receives : RootStep

-- A loop over `n` buckets from number x on, before the rest.
unfoldable pub posts_from : Post → ℕ → ℕ → List RootStep → List RootStep
posts_from post x zero rest = rest
posts_from post x (suc n) rest = posts post x ∷ posts_from post (x + 1) n rest

-- The loops that wait for K messages.
unfoldable pub collects : ℕ → List RootStep → List RootStep
collects zero rest = rest
collects (suc n) rest = RootStep.notifies ∷ RootStep.receives ∷ collects n rest

-- `start` of SampleSortTask.c from the first round on.
unfoldable pub root_start : ℕ → List RootStep
unfolding posts_from collects
root_start k = posts_from the_topology 0 k (
    posts_from the_reference 0 k (
      posts_from the_splitters 0 k (
        clears
        ∷ posts_from the_signal 0 k (collects k (posts_from the_column 0 k (collects k []))))))

-- The local variables of the root's `start`: the ids of the buckets, the sizes and pointers of the
-- second loop, and the message objects that several sends share.
pub record RootThread : Type 0 where
  pub state : SampleSort
  pub buckets : List ℕ
  pub refs : List (ℕ × Ptr)
  pub topo_msg : Message
  pub splitters_msg : Message
  pub todo : List RootStep

pub record Threads : Type 0 where
  pub heap : Heap
  pub shared : Shared
  pub process : Process
  pub root : RootThread
  pub buckets : List BucketThread

-- Whose turn it is. A bucket is named by its position among the buckets.
pub data Turn : Type 0 where
  root : Turn
  bucket : ℕ → Turn

-- The threads of the buckets with these ids: the memory of a new bucket is as `malloc` left it.
unfoldable pub bucket_threads : Bucket → List ℕ → List BucketThread
bucket_threads memory ids =
    map (λ id. record { state = record memory { task_id = id }; todo = bucket_start }) ids

-- A bucket's thread has returned from `start`, and its stack is gone.
abbrev pub has_returned : BucketThread → Bool
has_returned t = leb (length t.todo) 0

unfoldable pub any_returned : List BucketThread → Bool
any_returned [] = false
any_returned (t ∷ ts) = let rest = any_returned ts in if has_returned t then true else rest

-- For a column the root reads the pointer array of every reply, which lies on the stack of the
-- bucket that sent it.
unfoldable pub dangles : Post → List BucketThread → Bool
unfolding any_returned
dangles the_column ts = any_returned ts
dangles _ ts = false

module _ (m : Machine) where
  -- The message of a post to bucket i, and the heap with what is allocated for it.
  unfoldable pub build_post : Post → ℕ → RootThread → Heap → Outcome (Message × Heap)
  build_post the_topology i r heap = done (r.topo_msg, heap)
  build_post the_reference i r heap = do
    (size, ptr) ← or_fault (get_elem? r.refs i)
    let created = RefIntArrayMsg.create (pos 3) m.reference_memory
    done (ref_int_array (RefIntArrayMsg.set_values created size ptr), heap)
  build_post the_splitters i r heap = done (r.splitters_msg, heap)
  build_post the_signal i r heap =
      done (signal (record (DoneMsg.create (pos 5) m.signal_memory) { success = pos 1 }), heap)
  build_post the_column i r heap = do
    (column, heap') ← build_ref_to_bucket heap i r.state.buckets_values_arr m.reply_memory
    done (ref_two_dim column, heap')

  -- A shared message object stays as the send leaves it.
  unfoldable pub keep_sent : Post → Message → RootThread → RootThread
  keep_sent the_topology sent r = record r { topo_msg = sent }
  keep_sent the_splitters sent r = record r { splitters_msg = sent }
  keep_sent _ sent r = r

  unfoldable pub root_post : Post → ℕ → List RootStep → Threads → Outcome Threads
  root_post post i rest c = do
    (msg, heap') ← build_post post i c.root c.heap
    id ← or_fault (get_elem? c.root.buckets i)
    (flag, sent, s', p') ← send c.shared c.process (m.at id) msg id
    done (record c {
      heap = heap';
      shared = s';
      process = p';
      root = keep_sent post sent (record (c.root) { todo = rest });
    })

  unfoldable pub root_received : Threads → List RootStep → Received SampleSort → Threads
  root_received c rest (waits p') = record c { process = p' }
  root_received c rest (served this s' p') = record c {
    shared = s';
    process = p';
    root = record (c.root) { state = this; todo = rest };
  }

  -- The next step of the root. To read the stack of a thread that has returned is a fault.
  unfoldable pub root_step : List RootStep → Threads → Outcome Threads
  unfolding root_post root_received dangles
  root_step [] c = done c
  root_step (posts post i ∷ rest) c =
      if dangles post c.buckets then fault else root_post post i rest c
  root_step (clears ∷ rest) c = done (record c {
    root = record (c.root) {
      state = clear_replies (length c.root.buckets) c.root.state;
      todo = rest;
    };
  })
  root_step (RootStep.notifies ∷ rest) c = do
    let t = c.root.state.task_id
    (empty, p') ← message_immediate c.shared c.process (m.at t) t
    let todo' = if empty then c.root.todo else rest
    done (record c { process = p'; root = record (c.root) { todo = todo' } })
  root_step (RootStep.receives ∷ rest) c = do
    let t = c.root.state.task_id
    r ← receive_by reaction c.root.state c.shared c.process (m.at t) t
    done (root_received c rest r)

  unfoldable pub bucket_received : Threads → ℕ → List BucketStep → Received Bucket → Threads
  bucket_received c i rest (waits p') = record c { process = p' }
  bucket_received c i rest (served this s' p') = record c {
    shared = s';
    process = p';
    buckets = set c.buckets i (record { state = this; todo = rest });
  }

  -- The next step of bucket i, whose state is `this`.
  unfoldable pub bucket_step : List BucketStep → Bucket → ℕ → Threads → Outcome Threads
  unfolding bucket_received
  bucket_step [] this i c = done c
  bucket_step (notifies ∷ rest) this i c = do
    (empty, p') ← message_immediate c.shared c.process (m.at this.task_id) this.task_id
    let todo' = if empty then notifies ∷ rest else rest
    done (record c {
      process = p';
      buckets = set c.buckets i (record { state = this; todo = todo' });
    })
  bucket_step (receives ∷ rest) this i c = do
    let t = this.task_id
    r ← receive_by (Receive.reaction c.heap) this c.shared c.process (m.at t) t
    done (bucket_received c i rest r)
  bucket_step (sends_sub_arrays ∷ rest) this i c = do
    let t = this.root_id
    (heap', s', p') ← send_sub_arrays m.junk c.heap this m.reply_memory c.shared c.process (m.at t)
    done (record c {
      heap = heap';
      shared = s';
      process = p';
      buckets = set c.buckets i (record { state = this; todo = rest });
    })
  bucket_step (finishes ∷ rest) this i c = do
    let t = this.root_id
    (this', s', p') ← finish m.lib this m.signal_memory c.shared c.process (m.at t)
    done (record c {
      shared = s';
      process = p';
      buckets = set c.buckets i (record { state = this'; todo = rest });
    })

  pub bucket_turn : Option BucketThread → ℕ → Threads → Outcome Threads
  bucket_turn none i c = done c
  bucket_turn (some b) i c = bucket_step b.todo b.state i c

  -- Where there is no such bucket nothing happens.
  unfoldable pub step : Turn → Threads → Outcome Threads
  unfolding root_step bucket_step bucket_turn
  step Turn.root c = root_step c.root.todo c
  step (bucket i) c = bucket_turn (get_elem? c.buckets i) i c

  unfoldable pub run : List Turn → Threads → Outcome Threads
  unfolding step
  run [] c = done c
  run (t ∷ ts) c = do c' ← step t c; run ts c'

  -- The root, which knows K and the data and has its splitters, creates the buckets and the
  -- messages of the first round.
  unfoldable pub launch :
      ℕ → List ℤ → SampleSort → Bucket → Heap → Shared → Process → Outcome Threads
  unfolding bucket_threads
  launch k splitters this memory heap s p = do
    (ids, s', p') ← create_buckets k s p m.at
    topo ← build_topology this.task_id ids (this.size / k) this.size m.topology_memory
    split ← build_splitters splitters m.splitters_memory
    done (record {
      heap = heap;
      shared = s';
      process = p';
      root = record {
        state = this;
        buckets = ids;
        refs = data_refs k (this.size / k) this.size this.data_ref 0;
        topo_msg = topology topo;
        splitters_msg = int_array split;
        todo = root_start k;
      };
      buckets = bucket_threads memory ids;
    })

  -- Before that: the samples at the positions that were drawn, and the splitters. A negative K is
  -- taken for a fault.
  unfoldable pub begin : List ℕ → SampleSort → Bucket → Heap → Shared → Process → Outcome Threads
  begin ats this memory heap s p = do
    k ← count_of this.k
    cells ← or_fault (get_elem? heap this.data_ref.block)
    samples ← get_samples (drop this.data_ref.offset cells) ats
    splitters ← get_splitters m.lib k samples
    launch k splitters this memory heap s p
