-- ===== src/Tasks/BucketTask/RoundTwo.antt =====
-- The second round of a bucket: it cuts its part of the data into sub-arrays and sends the root
-- references to them.
use francois_gingras_master.Common.{
  ℕ, zero, suc, ◌+◌, ◌≤◌, ◌≡◌, refl, sym, ap, ◌∙◌, some, ℤ, pos, List, [], ◌∷◌, ◌++◌, map,
  replicate, length-replicate, length-append, length-map, append_assoc, get_elem?-append, take,
  drop, length, get_elem?, Outcome, done, ◌>>=◌, arith,
}
use mathlib.Core.Path.{subst}
use francois_gingras_master.Messages.Header.{Heap, Ptr}
use francois_gingras_master.Messages.DoneMsg.{DoneMsg}
use francois_gingras_master.Messages.DoneMsg
use francois_gingras_master.Messages.RefTwoDimIntArrayMsg.{RefTwoDimIntArrayMsg, created}
use francois_gingras_master.Messages.RefTwoDimIntArrayMsg
use francois_gingras_master.Messages.Message.{ref_two_dim, signal}
use francois_gingras_master.System.{Shared, Process, send}
use francois_gingras_master.Tasks.Qsort.{Qsort}
use francois_gingras_master.Tasks.BucketTask.{sub_arrays, final_sort}
use francois_gingras_master.Tasks.BucketTask.Partition.{distribute}
use francois_gingras_master.Tasks.BucketTask.Partition.Fill.{sub_arrays-distribute}
use francois_gingras_master.Tasks.BucketTask.Partition.Order.{length-distribute}
use francois_gingras_master.Tasks.BucketTask.Receive.{Bucket, read_cells}
use francois_gingras_master.Tasks.BucketTask.Rounds.{AreRows, Refers, read_cells-take}

-- Pointers to the starts of n blocks from number b on.
unfoldable pub pointers : ℕ → ℕ → List Ptr
pointers b zero = []
pointers b (suc n) = record { block = b; offset = 0 } ∷ pointers (b + 1) n

-- 1) to 3) of the second round: the counts and the sub-arrays are in new blocks. `memory` is the block
-- that the message's constructor allocates, `junk` what stands in new arrays.
unfoldable pub build_ref_to_root :
    ℤ → Heap → Bucket → RefTwoDimIntArrayMsg → Outcome (RefTwoDimIntArrayMsg × Heap)
build_ref_to_root junk heap this memory = do
  values ← read_cells heap this.data_ref 0 this.data_size
  (counts, rows) ← sub_arrays junk this.bucket_count this.splitters values
  done (
    record (RefTwoDimIntArrayMsg.create (pos 6) memory) {
      size = this.bucket_count;
      counts = record { block = length heap; offset = 0 };
      values = pointers (length heap + 1) this.bucket_count;
    },
    heap ++ (map pos counts ∷ rows),
  )

unfoldable pub send_sub_arrays :
    ℤ
    → Heap
    → Bucket
    → RefTwoDimIntArrayMsg
    → Shared
    → Process
    → ℕ
    → Outcome (Heap × Shared × Process)
send_sub_arrays junk heap this memory s p at = do
  (m, heap') ← build_ref_to_root junk heap this memory
  (flag, msg, s', p') ← send s p at (ref_two_dim m) this.root_id
  done (heap', s', p')

-- The end of the third round: sort, and tell the root.
unfoldable pub finish :
    Qsort → Bucket → DoneMsg → Shared → Process → ℕ → Outcome (Bucket × Shared × Process)
finish lib this memory s p at = do
  let sorted = record this { final_data_values = final_sort lib this.final_data_values }
  let msg = record (DoneMsg.create (pos 8) memory) { success = pos 1 }
  (flag, msg', s', p') ← send s p at (signal msg) this.root_id
  done (sorted, s', p')

AreRows-pointers :
    (heap : Heap) (rows : List (List ℤ)) (b : ℕ)
    → b ≡ length heap
    → AreRows (heap ++ rows) (pointers b (length rows)) rows
unfolding pointers
AreRows-pointers heap [] b e = tt
AreRows-pointers heap (r ∷ rows) b e =
    let shift : (heap ++ (r ∷ [])) ++ rows ≡ heap ++ (r ∷ rows) = append_assoc heap (r ∷ []) rows in
    (
      ap (get_elem? (heap ++ (r ∷ rows))) e ∙ get_elem?-append heap rows r,
      refl,
      subst (λ h. AreRows h (pointers (b + 1) (length rows)) rows) shift
          (AreRows-pointers (heap ++ (r ∷ [])) rows (b + 1)
            (omega (arith, e, length-append heap (r ∷ [])))),
    )

-- The message has the header that the constructor gives it.
pub build_ref_to_root_lem :
    (junk : ℤ) (heap : Heap) (this : Bucket) (memory : RefTwoDimIntArrayMsg) (cells : List ℤ)
    (s : ℤ) (ss : List ℤ)
    → get_elem? heap this.data_ref.block ≡ some cells
    → this.data_ref.offset + this.data_size ≤ length cells
    → this.splitters ≡ s ∷ ss
    → this.bucket_count ≡ suc (length ss)
    → (m : RefTwoDimIntArrayMsg) × (new : Heap) × (build_ref_to_root junk heap this memory
        ≡ done (m, heap ++ new))
      × (m.header ≡ created (pos 6))
      × (let rows =
            distribute
              (s ∷ ss)
              (take this.data_size (drop this.data_ref.offset cells))
              (replicate (suc (length ss)) []) in
          Refers (heap ++ new) m (map length rows) rows)
unfolding build_ref_to_root RefTwoDimIntArrayMsg.create
build_ref_to_root_lem junk heap this memory cells s ss at within split count =
    let part = take this.data_size (drop this.data_ref.offset cells) in
    let k = suc (length ss) in
    let rows = distribute (s ∷ ss) part (replicate k []) in
    let many : length rows ≡ k =
      length-distribute (s ∷ ss) part (replicate k []) ∙ length-replicate k [] in
    let new = map pos (map length rows) ∷ rows in
    let m = record (RefTwoDimIntArrayMsg.create (pos 6) memory) {
      size = this.bucket_count;
      counts = record { block = length heap; offset = 0 };
      values = pointers (length heap + 1) this.bucket_count;
    } in
    let all : this.bucket_count ≡ length rows = count ∙ sym many in
    let read : read_cells heap this.data_ref 0 this.data_size ≡ done part =
      read_cells-take heap this.data_ref cells 0 this.data_ref.offset this.data_size at
        (omega arith) within in
    let shift : (heap ++ (map pos (map length rows) ∷ [])) ++ rows ≡ heap ++ new =
      append_assoc heap (map pos (map length rows) ∷ []) rows in
    let behind : AreRows (heap ++ new) (pointers (length heap + 1) this.bucket_count) rows =
      rw all (
        rw⁻¹ shift (
          AreRows-pointers (heap ++ (map pos (map length rows) ∷ [])) rows (length heap + 1)
            (omega (arith, length-append heap (map pos (map length rows) ∷ []))))) in
    (
      m,
      new,
      rw (read, split, count, sub_arrays-distribute junk s ss part) refl,
      refl,
      record {
        counted = get_elem?-append heap rows (map pos (map length rows));
        first = refl;
        sized = all ∙ sym (length-map length rows);
        rows_at = behind;
      },
    )

-- A bucket that refers to a part of the data and has as many splitters as there are buckets, at least
-- one, cuts the part into the sub-arrays of `distribute`. The message that it builds for the root
-- refers to them and to their lengths, and no block that was there before has changed.
pub build_ref_to_root-Refers :
    (junk : ℤ) (heap : Heap) (this : Bucket) (memory : RefTwoDimIntArrayMsg) (cells : List ℤ)
    (s : ℤ) (ss : List ℤ)
    → get_elem? heap this.data_ref.block ≡ some cells
    → this.data_ref.offset + this.data_size ≤ length cells
    → this.splitters ≡ s ∷ ss
    → this.bucket_count ≡ suc (length ss)
    → (m : RefTwoDimIntArrayMsg) × (new : Heap) × (build_ref_to_root junk heap this memory
        ≡ done (m, heap ++ new))
      × (m.tag ≡ pos 6)
      × (let rows =
            distribute
              (s ∷ ss)
              (take this.data_size (drop this.data_ref.offset cells))
              (replicate (suc (length ss)) []) in
          Refers (heap ++ new) m (map length rows) rows)
build_ref_to_root-Refers junk heap this memory cells s ss at within split count =
    let (m, new, built, made, refers) =
      build_ref_to_root_lem junk heap this memory cells s ss at within split count in
    (m, new, built, ap (λ h. h.tag) made, refers)
