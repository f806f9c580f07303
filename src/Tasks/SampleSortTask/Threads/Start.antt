-- ===== src/Tasks/SampleSortTask/Threads/Start.antt =====
-- The state in which the threads start.
use francois_gingras_master.Tasks.SampleSortTask.RoundOne.{part_of, data_refs-parts}
use francois_gingras_master.Tasks.SampleSortTask.Correct.Rounds.{parts-flatten}
use mathlib.Core.List.{flatten}
use native.Mathlib.Nat.{mul-div-le}
use mathlib.Core.Path.{subst}
use francois_gingras_master.Common.{
  ◌/◌, map, ℕ, zero, suc, ◌+◌, ◌-◌, ◌*◌, ◌%◌, ◌^◌, ◌≤◌, ◌<◌, ◌≡◌, ◌≢◌, refl, ap, ◌∙◌, true, false,
  some, ℤ, pos, List, [], ◌∷◌, take, take-length, length, length-take, length-set, get_elem?,
  get_elem?-some, get_elem?-set_self, get_elem?-set_ne, set, done, leb, ◌==◌, ==_self, arith,
}
use francois_gingras_master.Queue.{create_queue}
use francois_gingras_master.Messages.Header.{Ptr, Place}
use francois_gingras_master.Messages.TopologyMsg.{TopologyMsg}
use francois_gingras_master.Messages.TopologyMsg
use francois_gingras_master.Messages.IntArrayMsg.{IntArrayMsg}
use francois_gingras_master.Messages.IntArrayMsg
use francois_gingras_master.Messages.Message.{topology, int_array}
use francois_gingras_master.Messages.Message.Law.{IsReady}
use francois_gingras_master.System.{
  Shared, Process, update, get_next_task_id, create_msg_q, max_task,
}
use francois_gingras_master.System.Delivery.{IsMapped}
use francois_gingras_master.Tasks.Spawn.{spawn}
use francois_gingras_master.Tasks.SampleSortTask.RoundOne.{
  create_buckets, build_topology, build_splitters, data_refs,
}

-- What K new buckets have: the ids in a row, and a new queue each.
pub record Created (n : ℕ) (s : Shared) (p : Process) (at : ℕ → ℕ) (ids : List ℕ) (s' : Shared)
    (p' : Process) : Type 0 where
  pub many : length ids ≡ n
  pub in_row : (i id : ℕ) → get_elem? ids i ≡ some id → id ≡ s.next_task_id + i
  pub empty : (i id : ℕ) → get_elem? ids i ≡ some id → s'.segments id ≡ create_queue
  pub mapped : (i id : ℕ) → get_elem? ids i ≡ some id → IsMapped p' id (at id)
  pub kept : (u : ℕ) → u < s.next_task_id → s'.segments u ≡ s.segments u
  pub table_kept :
      (u : ℕ) → u < s.next_task_id → get_elem? p'.task_table u ≡ get_elem? p.task_table u

pub create_buckets_lem :
    (n : ℕ) (s : Shared) (p : Process) (at : ℕ → ℕ)
    → length p.task_table ≡ max_task
    → s.next_task_id + n ≤ max_task
    → (ids : List ℕ) × (s' : Shared) × (p' : Process) × (create_buckets n s p at
        ≡ done (ids, s', p'))
      × Created n s p at ids s' p'
unfolding create_buckets spawn get_next_task_id create_msg_q
create_buckets_lem zero s p at long enough = (
  [],
  s,
  p,
  refl,
  record {
    many = refl;
    in_row = λ i id e. absurd (cc);
    empty = λ i id e. absurd (cc);
    mapped = λ i id e. absurd (cc);
    kept = λ u h. refl;
    table_kept = λ u h. refl;
  },
)
create_buckets_lem (suc n) s p at long enough =
    let id = s.next_task_id in
    let (old, e) = get_elem?-some p.task_table id (omega arith) in
    let s1 : Shared = record {
      next_task_id = (id + 1) % 2 ^ 32;
      segments = update s.segments id create_queue;
      linked = update s.linked id true;
    } in
    let p1 : Process = record { task_table = set p.task_table id (some (at id)) } in
    let next : (id + 1) % 2 ^ 32 ≡ id + 1 = omega arith in
    let (ids, s', p', run, c) =
      create_buckets_lem n s1 p1 at (length-set p.task_table id (some (at id)) ∙ long)
        (omega arith) in
    let before : id < (id + 1) % 2 ^ 32 = omega arith in
    (
      id ∷ ids,
      s',
      p',
      rw (e, run) refl,
      record {
        many = ap suc (c.many);
        in_row = λ i j f. row i j ids f (c.in_row);
        empty = λ i j f.
            first_or i j ids (λ k. s'.segments k ≡ create_queue) f
              (c.kept id before ∙ rw (==_self id) refl) (c.empty);
        mapped = λ i j f.
            first_or i j ids (λ k. IsMapped p' k (at k)) f
              (c.table_kept id before
                ∙ get_elem?-set_self p.task_table id (some (at id)) (omega arith))
              (c.mapped);
        kept = λ u h.
            let other : (u == id) ≡ false = ground arith in c.kept u (omega arith) ∙ rw other refl;
        table_kept = λ u h.
            let other : id ≢ u = λ z. absurd (omega arith) in
            c.table_kept u (omega arith) ∙ get_elem?-set_ne p.task_table (some (at id)) other;
      },
    )
  where
    first_or :
        (i j : ℕ) (ids : List ℕ) (Q : ℕ → Type 0)
        → get_elem? (s.next_task_id ∷ ids) i ≡ some j
        → Q s.next_task_id
        → ((i j : ℕ) → get_elem? ids i ≡ some j → Q j)
        → Q j
    first_or zero j ids Q f here later = subst Q (cc) here
    first_or (suc i) j ids Q f here later = later i j f

    row :
        (i j : ℕ) (ids : List ℕ)
        → get_elem? (s.next_task_id ∷ ids) i ≡ some j
        → ((i j : ℕ) → get_elem? ids i ≡ some j → j ≡ (s.next_task_id + 1) % 2 ^ 32 + i)
        → j ≡ s.next_task_id + i
    row zero j ids f later = let same : s.next_task_id ≡ j = cc in omega arith
    row (suc i) j ids f later = omega (arith, later i j f)

-- The message objects of the first round.
pub build_topology_lem :
    (task_id : ℕ) (ids : List ℕ) (per size : ℕ) (memory : TopologyMsg)
    → length ids ≤ 100
    → (t : TopologyMsg) × (build_topology task_id ids per size memory ≡ done t)
      × IsReady (topology t)
      × (t.tag ≡ pos 2)
      × (t.bucket_count ≡ length ids)
      × (t.root_id ≡ task_id)
      × (length t.bucket_ids.items ≡ length ids)
      × (t.msg_size ≤ 504)
unfolding build_topology TopologyMsg.create TopologyMsg.set_root_id TopologyMsg.set_bucket_ids
build_topology_lem task_id ids per size memory few =
    let fits : leb (length ids) (length ids) ≡ true = ground arith in
    let kept = length-take (length ids) ids (omega arith) in
    let grown : (104 + length ids * 4) % 2 ^ 32 ≡ 104 + length ids * 4 = omega arith in
    (
      record {
        header = record {
          tag = pos 2;
          tid = TopologyMsg.topology_msg_id;
          msg_size = (104 + length ids * 4) % 2 ^ 32;
          methods = true;
        };
        bucket_count = length ids;
        root_id = task_id;
        sample_size = pos per;
        data_size = pos size;
        bucket_ids = record { place = Place.owned; items = take (length ids) ids };
      },
      rw fits refl,
      record {
        sound = record { classed = refl; sized = omega arith };
        bound = refl;
        small = omega arith;
        owns = omega (arith, kept);
      },
      refl,
      refl,
      refl,
      kept,
      omega arith,
    )

pub build_splitters_lem :
    (splitters : List ℤ) (memory : IntArrayMsg)
    → length splitters ≤ 100
    → (t : IntArrayMsg) × (build_splitters splitters memory ≡ done t)
      × IsReady (int_array t)
      × (t.tag ≡ pos 4)
      × (take t.size t.values.items ≡ splitters)
      × (t.size ≤ length t.values.items)
      × (t.msg_size ≤ 50000)
unfolding build_splitters IntArrayMsg.create IntArrayMsg.set_values
build_splitters_lem splitters memory few =
    let fits : leb (length splitters) (length splitters) ≡ true = ground arith in
    let kept = length-take (length splitters) splitters (omega arith) in
    let all = take-length splitters in
    (
      record {
        header = record {
          tag = pos 4;
          tid = IntArrayMsg.intarray_msg_id;
          msg_size = (88 + length splitters * 4) % 2 ^ 32;
          methods = true;
        };
        size = length splitters;
        values = record { place = Place.owned; items = take (length splitters) splitters };
      },
      rw fits refl,
      record {
        sound = record { classed = refl; sized = omega arith };
        bound = refl;
        small = omega arith;
        owns = omega (arith, kept);
      },
      refl,
      ap (take (length splitters)) all ∙ all,
      omega (arith, kept),
      omega arith,
    )

-- Every reference leads into the data's block, and there are as many as buckets.
pub data_refs_within :
    (n per size : ℕ) (base : Ptr) (current : ℕ)
    → base.offset ≡ 0
    → current + n * per ≤ size
    → (i : ℕ) (r : ℕ × Ptr) → get_elem? (data_refs (suc n) per size base current) i ≡ some r
    → (r.1.block ≡ base.block) × (r.1.offset + r.0 ≤ size)
unfolding data_refs
data_refs_within zero per size base current z h zero r e =
    let is : (size - current, record base { offset = base.offset + current }) ≡ r = cc in
    subst (λ x. (x.1.block ≡ base.block) × (x.1.offset + x.0 ≤ size)) is (refl, omega (arith, z))
data_refs_within zero per size base current z h (suc i) r e = absurd (cc)
data_refs_within (suc n) per size base current z h zero r e =
    let is : (per, record base { offset = base.offset + current }) ≡ r = cc in
    let more : suc n * per ≡ n * per + per = grind arith in
    subst (λ x. (x.1.block ≡ base.block) × (x.1.offset + x.0 ≤ size)) is
      (refl, omega (arith, z, more))
data_refs_within (suc n) per size base current z h (suc i) r e =
    let more : suc n * per ≡ n * per + per = grind arith in
    data_refs_within n per size base (current + per) z (omega (arith, more)) i r e

pub length-data_refs :
    (n per size : ℕ) (base : Ptr) (current : ℕ) → length (data_refs n per size base current) ≡ n
unfolding data_refs
length-data_refs zero per size base current = refl
length-data_refs (suc zero) per size base current = refl
length-data_refs (suc (suc n)) per size base current =
    ap suc (length-data_refs (suc n) per size base (current + per))

-- If the data fill a block from its start and K is not 0, the root sends K references; each lies
-- within that block, and what they refer to, one after the other, is the data: nothing is left out
-- and nothing is taken twice.
pub data_refs_whole :
    (cells : List ℤ) (k : ℕ) (base : Ptr)
    → base.offset ≡ 0
    → (let refs = data_refs (suc k) (length cells / suc k) (length cells) base 0 in
        (length refs ≡ suc k)
        × ((i : ℕ) (r : ℕ × Ptr)
            → get_elem? refs i ≡ some r
            → (r.1.block ≡ base.block) × (r.1.offset + r.0 ≤ length cells))
        × (flatten (map (part_of cells) refs) ≡ cells))
data_refs_whole cells k base z =
    let per = length cells / suc k in
    (
      length-data_refs (suc k) per (length cells) base 0,
      data_refs_within k per (length cells) base 0 z
          (grind (arith, mul-div-le (length cells) (suc k))),
      ap flatten (data_refs-parts cells (suc k) base z) ∙ parts-flatten k per cells,
    )
