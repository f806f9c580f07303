-- ===== src/Tasks/SampleSortTask/RoundOne.antt =====
-- The first round of SampleSortTask.c: the buckets are created and told the topology, where their
-- part of the data is, and the splitters.
use francois_gingras_master.Common.{
  ℕ, zero, suc, ◌+◌, ◌-◌, ◌/◌, ◌≡◌, refl, ℤ, pos, List, [], ◌∷◌, map, take, drop, length,
  take-length, length-drop, drop-drop, Outcome, done, ◌>>=◌, arith,
}
use francois_gingras_master.Messages.Header.{Ptr}
use francois_gingras_master.Messages.TopologyMsg.{TopologyMsg}
use francois_gingras_master.Messages.TopologyMsg
use francois_gingras_master.Messages.RefIntArrayMsg.{RefIntArrayMsg}
use francois_gingras_master.Messages.RefIntArrayMsg
use francois_gingras_master.Messages.IntArrayMsg.{IntArrayMsg}
use francois_gingras_master.Messages.IntArrayMsg
use francois_gingras_master.Messages.Message.{Message, topology, ref_int_array, int_array}
use francois_gingras_master.System.{Shared, Process, send}
use francois_gingras_master.Tasks.Spawn.{spawn}
use francois_gingras_master.Tasks.SampleSortTask.{parts}

-- `n` calls of BucketTask_create; the new ids. `at` gives the address where `mmap` puts a queue.
unfoldable pub create_buckets : ℕ → Shared → Process → (ℕ → ℕ) → Outcome (List ℕ × Shared × Process)
create_buckets zero s p at = done ([], s, p)
create_buckets (suc n) s p at = do
  (id, s', p') ← spawn s p (at s.next_task_id)
  (ids, s'', p'') ← create_buckets n s' p' at
  done (id ∷ ids, s'', p'')

-- One message object that is sent to each bucket in turn, as `send` leaves it.
unfoldable pub send_same :
    List ℕ → Message → Shared → Process → (ℕ → ℕ) → Outcome (Shared × Process)
send_same [] msg s p at = done (s, p)
send_same (bucket ∷ buckets) msg s p at = do
  (flag, msg', s', p') ← send s p (at bucket) msg bucket
  send_same buckets msg' s' p' at

-- `memory` is the block that the message's constructor allocates.
unfoldable pub build_topology : ℕ → List ℕ → ℕ → ℕ → TopologyMsg → Outcome TopologyMsg
build_topology task_id buckets size_per_task size memory = do
  let rooted = TopologyMsg.set_root_id (TopologyMsg.create (pos 2) memory) task_id
  m ← TopologyMsg.set_bucket_ids rooted (length buckets) buckets
  done (record m { sample_size = pos size_per_task; data_size = pos size })

-- The sizes and pointers for `n` buckets from `current` on: the last one has the rest.
unfoldable pub data_refs : ℕ → ℕ → ℕ → Ptr → ℕ → List (ℕ × Ptr)
data_refs zero size_per_task size base current = []
data_refs (suc zero) size_per_task size base current =
    (size - current, record base { offset = base.offset + current }) ∷ []
data_refs (suc (suc n)) size_per_task size base current =
    (size_per_task, record base { offset = base.offset + current })
    ∷ data_refs (suc n) size_per_task size base (current + size_per_task)

unfoldable pub send_refs :
    List ℕ
    → List (ℕ × Ptr)
    → RefIntArrayMsg
    → Shared
    → Process
    → (ℕ → ℕ)
    → Outcome (Shared × Process)
send_refs (bucket ∷ buckets) ((size, ptr) ∷ refs) memory s p at = do
  let m = RefIntArrayMsg.set_values (RefIntArrayMsg.create (pos 3) memory) size ptr
  (flag, msg, s', p') ← send s p (at bucket) (ref_int_array m) bucket
  send_refs buckets refs memory s' p' at
send_refs _ _ memory s p at = done (s, p)

unfoldable pub build_splitters : List ℤ → IntArrayMsg → Outcome IntArrayMsg
build_splitters splitters memory =
    IntArrayMsg.set_values (IntArrayMsg.create (pos 4) memory) (length splitters) splitters

-- The three loops, one after the other.
unfoldable pub send_phase_one :
    ℕ
    → List ℕ
    → List ℤ
    → ℕ
    → Ptr
    → TopologyMsg
    → RefIntArrayMsg
    → IntArrayMsg
    → Shared
    → Process
    → (ℕ → ℕ)
    → Outcome (Shared × Process)
send_phase_one task_id buckets splitters size base memory memory' memory'' s p at = do
  let size_per_task = size / length buckets
  topo ← build_topology task_id buckets size_per_task size memory
  (s1, p1) ← send_same buckets (topology topo) s p at
  (s2, p2) ←
      send_refs buckets (data_refs (length buckets) size_per_task size base 0) memory' s1 p1 at
  split ← build_splitters splitters memory''
  send_same buckets (int_array split) s2 p2 at

-- The data that a size and a pointer stand for.
abbrev pub part_of : List ℤ → ℕ × Ptr → List ℤ
part_of cells r = take r.0 (drop r.1.offset cells)

data_refs-from :
    (cells : List ℤ) (n step : ℕ) (base : Ptr) (current : ℕ)
    → base.offset ≡ 0
    → map (part_of cells) (data_refs n step (length cells) base current)
      ≡ parts n step (drop current cells)
unfolding data_refs parts
data_refs-from cells zero step base current z = refl
data_refs-from cells (suc zero) step base current z =
    let here : base.offset + current ≡ current = omega (arith, z) in
    let left = length-drop current cells in
    let whole : take (length cells - current) (drop current cells) ≡ drop current cells =
      rw⁻¹ left (take-length (drop current cells)) in
    rw (here, whole) refl
data_refs-from cells (suc (suc n)) step base current z =
    let here : base.offset + current ≡ current = omega (arith, z) in
    rw
      (
        here,
        data_refs-from cells (suc n) step base (current + step) z,
        drop-drop cells current step (current + step) refl,
      )
      refl

-- If the data fill a block from its start, the references stand for the parts of the data, in order.
pub data_refs-parts :
    (cells : List ℤ) (k : ℕ) (base : Ptr)
    → base.offset ≡ 0
    → map (part_of cells) (data_refs k (length cells / k) (length cells) base 0)
      ≡ parts k (length cells / k) cells
data_refs-parts cells k base z = data_refs-from cells k (length cells / k) base 0 z
