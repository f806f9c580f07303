-- ===== src/Tasks/SampleSortTask/Threads/Launch.antt =====
-- From `begin` on: what holds of the threads when they start.
use mathlib.Core.Path.{subst}
use mathlib.Core.List.{Permᴰ, flatten}
use francois_gingras_master.Common.{
  ℕ, suc, ◌+◌, ◌*◌, ◌/◌, ◌≤◌, ◌<◌, ◌≡◌, inl, inr, refl, sym, ap, ◌∙◌, some, ℤ, List, [], ◌∷◌, map,
  length, length-map, get_elem?, get_elem?-lt, get_elem?-some, leb, done, arith,
}
use native.Mathlib.Nat.{mul-div-le}
use francois_gingras_master.Queue.{sizeof_queue}
use francois_gingras_master.Queue.Lane.{create_queue-Lane}
use francois_gingras_master.Messages.Header.{Heap, Ptr}
use francois_gingras_master.Messages.TopologyMsg.{TopologyMsg}
use francois_gingras_master.Messages.IntArrayMsg.{IntArrayMsg}
use francois_gingras_master.Messages.Message.{topology, int_array}
use francois_gingras_master.Messages.Message.Law.{message_law}
use francois_gingras_master.System.{Shared, Process, max_task}
use francois_gingras_master.System.Delivery.{IsMapped}
use francois_gingras_master.System.Delivery.Lane.{Bears}
use francois_gingras_master.Tasks.BucketTask.Receive.{Bucket}
use francois_gingras_master.Tasks.SampleSortTask.Receive.{SampleSort}
use francois_gingras_master.Tasks.SampleSortTask.RoundOne.{part_of, data_refs, data_refs-parts}
use francois_gingras_master.Tasks.SampleSortTask.Correct.Rounds.{parts-flatten}
use francois_gingras_master.Tasks.SampleSortTask.Threads.{
  Machine, the_topology, BucketThread, bucket_start, Threads, root_start, bucket_threads, launch,
}
use francois_gingras_master.Tasks.SampleSortTask.Threads.Plan.{early, Inv}
use francois_gingras_master.Tasks.SampleSortTask.Threads.Setting.{Plan, BucketInv, reply}
use francois_gingras_master.Tasks.SampleSortTask.Threads.Stages.{
  expected, fresh, posting, has_replied,
}
use francois_gingras_master.Tasks.SampleSortTask.Threads.Picks.{pick_where_none}
use francois_gingras_master.Tasks.SampleSortTask.Threads.Change.{measure}
use francois_gingras_master.Tasks.SampleSortTask.Threads.Start.{
  Created, create_buckets_lem, build_topology_lem, build_splitters_lem, data_refs_within,
  length-data_refs,
}
use francois_gingras_master.Tasks.SampleSortTask.Threads.Counting.{
  length-root_start, steps_left-bucket_threads, new_thread,
}

module _ (m : Machine) (k : ℕ) (first : ℤ) (rest : List ℤ) (this : SampleSort) (memory : Bucket)
    (heap : Heap) (cells : List ℤ) (s : Shared) (p : Process) (room : ℕ) (split : length rest ≡ k)
    (block : get_elem? heap this.data_ref.block ≡ some cells) (whole : this.data_ref.offset ≡ 0)
    (sized : this.size ≡ length cells) (long : length p.task_table ≡ max_task)
    (enough : s.next_task_id + suc k ≤ max_task) (own : this.task_id < s.next_task_id)
    (mapped : IsMapped p this.task_id (m.at this.task_id))
    (waiting : Bears (s.segments this.task_id) [] room) (roomy : room ≤ 900000) where
  -- The run that a launch begins.
  abbrev pub Launched : Type 0
  Launched =
      (P : Plan) × (c : Threads) × (launch m (suc k) (first ∷ rest) this memory heap s p ≡ done c)
      × Inv m P c
      × (measure c ≡ 21 * suc k + 1)
      × (P.k ≡ k)
      × (flatten (map (part_of P.cells) P.refs) ≡ cells)
      × (c.root.todo ≡ root_start (suc k))

  per : ℕ
  per = this.size / suc k

  refs : List (ℕ × Ptr)
  refs = data_refs (suc k) per this.size this.data_ref 0

  plan : (ids : List ℕ) (s' : Shared) (p' : Process) → Created (suc k) s p m.at ids s' p' → Plan
  unfolding refs per
  plan ids s' p' c = record {
    k = k;
    first = first;
    rest = rest;
    root_id = this.task_id;
    ids = ids;
    block = this.data_ref.block;
    cells = cells;
    refs = refs;
    process = p';
    base = m.at;
    room = room;
    many = c.many;
    few = omega arith;
    splits = split;
    referenced = length-data_refs (suc k) per this.size this.data_ref 0;
    refs_within = λ i r e.
        subst (λ n. (r.1.block ≡ this.data_ref.block) × (r.1.offset + r.0 ≤ n)) sized
          (data_refs_within k per this.size this.data_ref 0 whole
            (grind (arith, mul-div-le this.size (suc k))) i r e);
    mapped_root = c.table_kept this.task_id own ∙ mapped;
    mapped = c.mapped;
    apart = λ i id e z. absurd (omega (arith, c.in_row i id e));
    distinct = λ i j id e f. omega (arith, c.in_row i id e, c.in_row j id f);
    roomy = roomy;
  }

  -- Bucket i before its first step.
  starts :
      (ids : List ℕ) (s' : Shared) (p' : Process) (made : Created (suc k) s p m.at ids s' p')
      → (i : ℕ) (t : BucketThread) → get_elem? (bucket_threads memory ids) i ≡ some t
      → BucketInv m
          (plan ids s' p' made)
          (posting the_topology 0 (suc k))
          []
          heap
          i
          t
          (s'.segments t.state.task_id)
  unfolding plan refs
  starts ids s' p' made i t e =
      let (at, todo) = new_thread memory ids i t e in
      let below : i < length refs = omega (
        arith,
        get_elem?-lt ids i t.state.task_id at,
        made.many,
        length-data_refs (suc k) per this.size this.data_ref 0,
      ) in
      let (r, er) = get_elem?-some refs i below in
      record {
        at = fresh;
        todo_at = inr (refl, todo);
        self = at;
        ref = r;
        ref_at = er;
        knows = tt;
        ns = [];
        future = expected fresh;
        used = sizeof_queue;
        bears =
            subst (λ q. Bears q [] sizeof_queue) (sym (made.empty i t.state.task_id at))
              ([], create_queue-Lane message_law, tt);
        budget = omega arith;
        owed = (λ h. absurd (omega arith), λ h. refl);
        pending = refl;
      }

  -- The parts of the data together are the data.
  all_parts : flatten (map (part_of cells) refs) ≡ cells
  unfolding refs per
  all_parts =
      ap (λ n. flatten (map (part_of cells) (data_refs (suc k) (n / suc k) n this.data_ref 0)))
        sized
      ∙ ap flatten (data_refs-parts cells (suc k) this.data_ref whole)
      ∙ parts-flatten k (length cells / suc k) cells

  threads_at : List ℕ → Shared → Process → TopologyMsg → IntArrayMsg → Threads
  unfolding refs per
  threads_at ids s' p' topo splits = record {
    heap = heap;
    shared = s';
    process = p';
    root = record {
      state = this;
      buckets = ids;
      refs = refs;
      topo_msg = topology topo;
      splitters_msg = int_array splits;
      todo = root_start (suc k);
    };
    buckets = bucket_threads memory ids;
  }

  pub launched : Launched
  unfolding launch plan refs per threads_at root_start bucket_threads
  launched =
      let (ids, s', p', run, made) = create_buckets_lem (suc k) s p m.at long enough in
      let few : length ids ≤ 100 = omega (arith, made.many) in
      let (topo, built, ready, tag, count, root, ids_long, small) =
        build_topology_lem this.task_id ids (this.size / suc k) this.size m.topology_memory few in
      let (splits, built', ready', tag', items, size, small') =
        build_splitters_lem (first ∷ rest) m.splitters_memory (omega (arith, split)) in
      let P = plan ids s' p' made in
      let threads = bucket_threads memory ids in
      let fresh_one : (i : ℕ) (t : BucketThread)
          → get_elem? threads i ≡ some t
          → t.todo ≡ bucket_start =
        λ i t e. (new_thread memory ids i t e).1 in
      let none_replied =
        pick_where_none has_replied threads (map (reply m P) refs)
          (λ i t e. ap (λ l. leb (length l) 3) (fresh_one i t e)) in
      let c = threads_at ids s' p' topo splits in
      let inv : Inv m P c = record {
        rs = [];
        stage = posting the_topology 0 (suc k);
        data_at = block;
        table = refl;
        self = refl;
        known_ids = refl;
        known_refs = refl;
        todo_at = inl refl;
        is_stage = omega arith;
        topo = record {
          ready = ready;
          brings = λ h rs i r. (tag, count ∙ made.many, root, omega (arith, ids_long, made.many));
          sized = λ x n e. omega (arith, small);
        };
        splitters = record {
          ready = ready';
          brings = λ h rs i r. (tag', items, size);
          sized = small';
        };
        count =
            length-map
              (λ id. record { state = record memory { task_id = id }; todo = bucket_start }) ids
            ∙ made.many;
        each = starts ids s' p' made;
        arrived = subst (λ l. Permᴰ l []) (sym none_replied) Permᴰ.nil;
        gathers =
            early [] [] room tt tt
              (subst (λ q. Bears q [] room) (sym (made.kept this.task_id own)) waiting)
              (omega arith) refl;
      } in
      (
        P,
        c,
        rw (run, built, built') refl,
        inv,
        omega (arith, length-root_start (suc k), steps_left-bucket_threads memory ids, made.many),
        refl,
        all_parts,
        refl,
      )
