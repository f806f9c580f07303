-- ===== src/Tasks/SampleSortTask/RoundTwo.antt =====
-- What a message refers to stays when blocks are added to the heap.
use francois_gingras_master.Common.{
  ℕ, zero, suc, ◌≡◌, some, ℤ, pos, List, [], ◌∷◌, ◌++◌, map, get_elem?,
}
use francois_gingras_master.Messages.Header.{Heap, Ptr}
use francois_gingras_master.Messages.RefTwoDimIntArrayMsg.{RefTwoDimIntArrayMsg}
use francois_gingras_master.Tasks.BucketTask.Rounds.{AreRows, Refers}

pub get_elem?-extend :
    (heap new : Heap) (i : ℕ) (cells : List ℤ)
    → get_elem? heap i ≡ some cells
    → get_elem? (heap ++ new) i ≡ some cells
get_elem?-extend [] new i cells e = absurd (cc)
get_elem?-extend (c ∷ heap) new zero cells e = e
get_elem?-extend (c ∷ heap) new (suc i) cells e = get_elem?-extend heap new i cells e

AreRows-extend :
    (heap new : Heap) (vs : List Ptr) (rows : List (List ℤ))
    → AreRows heap vs rows
    → AreRows (heap ++ new) vs rows
AreRows-extend heap new [] [] a = tt
AreRows-extend heap new [] (r ∷ rows) a = absurd a
AreRows-extend heap new (v ∷ vs) [] a = absurd a
AreRows-extend heap new (v ∷ vs) (r ∷ rows) (b, z, a) =
    (get_elem?-extend heap new v.block r b, z, AreRows-extend heap new vs rows a)

pub Refers-extend :
    (heap new : Heap) (m : RefTwoDimIntArrayMsg) (counts : List ℕ) (rows : List (List ℤ))
    → Refers heap m counts rows
    → Refers (heap ++ new) m counts rows
Refers-extend heap new m counts rows r = record {
  counted = get_elem?-extend heap new m.counts.block (map pos counts) r.counted;
  first = r.first;
  sized = r.sized;
  rows_at = AreRows-extend heap new m.values rows r.rows_at;
}
