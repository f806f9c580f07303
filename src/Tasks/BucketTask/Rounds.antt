-- ===== src/Tasks/BucketTask/Rounds.antt =====
-- What a bucket gets from the root.
use francois_gingras_master.Common.{
  ℕ, zero, suc, ◌+◌, ◌≤◌, ◌≡◌, refl, sym, ◌∙◌, Bool-cases, inl, inr, some, ℤ, pos, List, [], ◌∷◌,
  ◌++◌, map, take, drop, length, length-take, length-append, length-map, take-take, get_elem?,
  get_elem?-some, Outcome, done, fault, exits, take-length, leb, arith,
}
use francois_gingras_master.Messages.Header.{Heap, Ptr, Place, deref, read_array_owned}
use francois_gingras_master.Messages.TopologyMsg.{TopologyMsg}
use francois_gingras_master.Messages.RefIntArrayMsg.{RefIntArrayMsg}
use francois_gingras_master.Messages.RefIntArrayMsg
use francois_gingras_master.Messages.IntArrayMsg.{IntArrayMsg}
use francois_gingras_master.Messages.IntArrayMsg
use francois_gingras_master.Messages.RefTwoDimIntArrayMsg.{RefTwoDimIntArrayMsg}
use francois_gingras_master.Messages.Message.{
  Message, topology, ref_int_array, int_array, ref_two_dim,
}
use francois_gingras_master.System.{Shared, Process}
use francois_gingras_master.System.Delivery.{Carries, IsMapped}
use francois_gingras_master.Tasks.Dispatch.{served, receive_by-handles, receives, receives_cons}
use francois_gingras_master.Tasks.BucketTask.{rebuild}
use francois_gingras_master.Tasks.BucketTask.Receive.{
  Bucket, reaction, handle_topology, handle_data_ref, handle_splitter, handle_set_sub_array,
  read_cells, total, copy_rows,
}

-- The pointers lead to the starts of these blocks.
abbrev pub AreRows : Heap → List Ptr → List (List ℤ) → Type 0
AreRows heap [] [] = Unit {0}
AreRows heap (v ∷ vs) (row ∷ rows) =
    (get_elem? heap v.block ≡ some row) × (v.offset ≡ 0) × AreRows heap vs rows
AreRows heap _ _ = ⊥

-- The message refers to these counts and rows.
pub record Refers (heap : Heap) (m : RefTwoDimIntArrayMsg) (counts : List ℕ) (rows : List (List ℤ))
    : Type 0 where
  pub counted : get_elem? heap m.counts.block ≡ some (map pos counts)
  pub first : m.counts.offset ≡ 0
  pub sized : m.size ≡ length counts
  pub rows_at : AreRows heap m.values rows

take-drop :
    (cells : List ℤ) (i n : ℕ) (v : ℤ)
    → get_elem? cells i ≡ some v
    → take (suc n) (drop i cells) ≡ v ∷ take n (drop (suc i) cells)
take-drop [] i n v e = absurd (cc)
take-drop (x ∷ cells) zero n v e = let same : x ≡ v = cc in rw same refl
take-drop (x ∷ cells) (suc i) n v e = take-drop cells i n v e

-- Cells that are in the block are read. q is the offset of the first of them.
pub read_cells-take :
    (heap : Heap) (p : Ptr) (cells : List ℤ) (i q n : ℕ)
    → get_elem? heap p.block ≡ some cells
    → p.offset + i ≡ q
    → q + n ≤ length cells
    → read_cells heap p i n ≡ done (take n (drop q cells))
unfolding read_cells deref
read_cells-take heap p cells i q zero e z h = refl
read_cells-take heap p cells i q (suc n) e z h =
    let (v, at) = get_elem?-some cells q (omega arith) in
    rw
      (
        e,
        z,
        at,
        read_cells-take heap p cells (i + 1) (suc q) n e (omega (arith, z)) (omega arith),
        take-drop cells q n v at,
      )
      refl

-- A rebuilt array is the row's part and the rebuilt others.
rebuild_cons :
    (c : ℕ) (counts : List ℕ) (row : List ℤ) (rows : List (List ℤ)) (out : List ℤ)
    (o : Outcome (List ℤ))
    → rebuild counts rows ≡ o
    → rebuild (c ∷ counts) (row ∷ rows) ≡ done out
    → (rest : List ℤ) × (rebuild counts rows ≡ done rest)
      × (c ≤ length row)
      × (take c row ++ rest ≡ out)
unfolding rebuild
rebuild_cons c counts row rows out fault e d = let no : fault ≡ done out = rw e at d in absurd (cc)
rebuild_cons c counts row rows out exits e d = let no : exits ≡ done out = rw e at d in absurd (cc)
rebuild_cons c counts row rows out (done rest) e d = elim (Bool-cases (leb c (length row))) [
  | inl fits ↦
      let same : done (take c row ++ rest) ≡ done out = rw (e, fits) at d in
      (rest, e, ground arith, cc)
  | inr short ↦ let no : fault ≡ done out = rw (e, short) at d in absurd (cc)
]

total-length :
    (counts : List ℕ) (rows : List (List ℤ)) (out : List ℤ)
    → rebuild counts rows ≡ done out
    → total (map pos counts) ≡ done (length out)
unfolding total rebuild
total-length [] rows out e = let same : [] ≡ out = cc in rw⁻¹ same refl
total-length (c ∷ counts) [] out e = absurd (cc)
total-length (c ∷ counts) (row ∷ rows) out e =
    let (rest, e', fits, same) = rebuild_cons c counts row rows out _ refl e in
    let sum : c + length rest ≡ length out =
      rw⁻¹ same (omega (arith, length-append (take c row) rest, length-take c row fits)) in
    rw (total-length counts rows rest e', sum) refl

copy_rows-rebuild :
    (heap : Heap) (vs : List Ptr) (counts : List ℕ) (rows : List (List ℤ)) (out : List ℤ)
    → AreRows heap vs rows
    → rebuild counts rows ≡ done out
    → copy_rows heap (map pos counts) vs ≡ done out
unfolding copy_rows rebuild
copy_rows-rebuild heap vs [] rows out a e = e
copy_rows-rebuild heap vs (c ∷ counts) [] out a e = absurd (cc)
copy_rows-rebuild heap [] (c ∷ counts) (row ∷ rows) out a e = absurd a
copy_rows-rebuild heap (v ∷ vs) (c ∷ counts) (row ∷ rows) out (at, z, a) e =
    let (rest, e', fits, same) = rebuild_cons c counts row rows out _ refl e in
    rw
      (
        read_cells-take heap v row 0 0 c at (omega (arith, z)) (omega (arith, fits)),
        copy_rows-rebuild heap vs counts rows rest a e',
        same,
      )
      refl

-- A bucket that gets a message that refers to counts and rows builds the array that `rebuild` gives for them,
-- wherever they are in the heap, and the size is that of the array.
pub handle_set_sub_array-rebuild :
    (heap : Heap) (this : Bucket) (m : RefTwoDimIntArrayMsg) (counts : List ℕ)
    (rows : List (List ℤ)) (out : List ℤ)
    → Refers heap m counts rows
    → rebuild counts rows ≡ done out
    → handle_set_sub_array heap this (ref_two_dim m)
      ≡ done (record this { final_data_size = length out; final_data_values = out })
unfolding handle_set_sub_array
handle_set_sub_array-rebuild heap this m counts rows out r e =
    let size = length-map pos counts in
    let whole : take m.size (map pos counts) ≡ map pos counts =
      rw (r.sized ∙ sym size) (take-length (map pos counts)) in
    rw
      (
        read_cells-take heap m.counts (map pos counts) 0 0 m.size r.counted (omega (arith, r.first))
            (omega (arith, size, r.sized)),
        whole,
        total-length counts rows out e,
        copy_rows-rebuild heap m.values counts rows out r.rows_at e,
      )
      refl

-- A bucket that has mapped its queue, with the topology, the reference to its data and the
-- splitters first on their way to it, in that order, under their tags 2, 3 and 4 and with arrays
-- as long as they say, and that receives three times, knows all that they say, and what was
-- behind them is left.
pub receives-phase_one :
    (heap : Heap) (this : Bucket) (s : Shared) (p : Process) (at base t : ℕ) (topo : TopologyMsg)
    (ref : RefIntArrayMsg) (split : IntArrayMsg) (ns : List Message)
    → IsMapped p t base
    → Carries (s.segments t) (topology topo ∷ ref_int_array ref ∷ int_array split ∷ ns)
    → topo.tag ≡ pos 2
    → ref.tag ≡ pos 3
    → split.tag ≡ pos 4
    → topo.bucket_count ≤ length topo.bucket_ids.items
    → split.size ≤ length split.values.items
    → (s' : Shared) × (receives (reaction heap) 3 this s p at t
        ≡ done (
            served
              (record this {
                bucket_count = topo.bucket_count;
                bucket_ids = take topo.bucket_count topo.bucket_ids.items;
                root_id = topo.root_id;
                data_size = ref.size;
                data_ref = ref.values;
                splitter_size = split.size;
                splitters = take split.size split.values.items;
              })
              s'
              p))
      × Carries (s'.segments t) ns
unfolding receives reaction handle_topology handle_data_ref handle_splitter RefIntArrayMsg.get_size
    IntArrayMsg.get_size
receives-phase_one heap this s p at base t topo ref split ns mapped k e2 e3 e4 ids vals =
    let kept_ids = length-take topo.bucket_count topo.bucket_ids.items ids in
    let kept_vals = length-take split.size split.values.items vals in
    let this1 = record this {
      bucket_count = topo.bucket_count;
      bucket_ids = take topo.bucket_count topo.bucket_ids.items;
      root_id = topo.root_id;
    } in
    let this2 = record this1 { data_size = ref.size; data_ref = ref.values } in
    let this3 = record this2 {
      splitter_size = split.size;
      splitters = take split.size split.values.items;
    } in
    let (s1, r1, k1) =
      receive_by-handles (reaction heap) handle_topology this this1 s p at base t (topology topo) _
        mapped k (rw e2 refl) (rw e2 refl)
        (rw
          (
            read_array_owned 0
                (record {
                  place = Place.owned;
                  items = take topo.bucket_count topo.bucket_ids.items;
                })
                topo.bucket_count (omega (arith, kept_ids)),
            take-take topo.bucket_count topo.bucket_ids.items,
          )
          refl) in
    let (s2, r2, k2) =
      receive_by-handles (reaction heap) handle_data_ref this1 this2 s1 p at base t
        (ref_int_array ref) _ mapped k1 (rw e3 refl) (rw e3 refl) refl in
    let (s3, r3, k3) =
      receive_by-handles (reaction heap) handle_splitter this2 this3 s2 p at base t
        (int_array split) _ mapped k2 (rw e4 refl) (rw e4 refl)
        (rw
          (
            read_array_owned 0
                (record { place = Place.owned; items = take split.size split.values.items })
                split.size (omega (arith, kept_vals)),
            take-take split.size split.values.items,
          )
          refl) in
    (
      s3,
      receives_cons (reaction heap) this this1 s s1 p p at t 2 r1
          ∙ receives_cons (reaction heap) this1 this2 s1 s2 p p at t 1 r2
          ∙ receives_cons (reaction heap) this2 this3 s2 s3 p p at t 0 r3,
      k3,
    )
