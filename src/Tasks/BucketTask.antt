-- ===== src/Tasks/BucketTask.antt =====
-- TaskSystem/src/Tasks/BucketTask/BucketTask.c: one bucket of a sample sort. Arrays that messages
-- refer to are shown by their contents: nothing writes them once they are referred to.
pub mod Partition
pub mod Receive
pub mod Rounds
pub mod RoundTwo
use francois_gingras_master.Common.{
  ℕ, zero, suc, ◌+◌, ◌<◌, Bool, Option, none, some, List, [], ◌∷◌, ◌++◌, replicate, map, length,
  take, set, Outcome, done, fault, or_fault, ◌>>=◌, ltb, leb, if◌then◌else◌, ℤ, leb_ℤ,
}
use francois_gingras_master.Tasks.Qsort.{Qsort, cmpfunc}

-- The loop over the splitters: the first that is not below the value, or the last one. `none` if
-- there is no splitter.
pub pick_from : ℕ → List ℤ → ℤ → Option ℕ
pick_from si [] val = none
pick_from si (s ∷ []) val = some si
pick_from si (s ∷ s' ∷ splitters) val =
    let rest = pick_from (si + 1) (s' ∷ splitters) val in if leb_ℤ val s then some si else rest

-- `counts[si]++`
pub increment : List ℕ → ℕ → Outcome (List ℕ)
increment [] i = fault
increment (c ∷ counts) zero = done ((c + 1) ∷ counts)
increment (c ∷ counts) (suc i) = increment counts i >>= λ cs. done (c ∷ cs)

increment_at : List ℕ → Option ℕ → Outcome (List ℕ)
increment_at counts none = done counts
increment_at counts (some si) = increment counts si

-- 1) get count
pub get_counts : List ℤ → List ℤ → List ℕ → Outcome (List ℕ)
unfolding increment_at
get_counts splitters [] counts = done counts
get_counts splitters (val ∷ vals) counts = do
  counts' ← increment_at counts (pick_from 0 splitters val)
  get_counts splitters vals counts'

-- `values_to_propagate[si][current[si]] = val; current[si]++;`
pub write_next : List (List ℤ) → List ℕ → ℕ → ℤ → Outcome (List (List ℤ) × List ℕ)
write_next (row ∷ rows) (c ∷ current) zero val =
    if ltb c (length row) then done (set row c val ∷ rows, (c + 1) ∷ current) else fault
write_next (row ∷ rows) (c ∷ current) (suc i) val =
    write_next rows current i val >>= λ w. done (row ∷ w.0, c ∷ w.1)
write_next _ _ i val = fault

write_next_at : List (List ℤ) → List ℕ → Option ℕ → ℤ → Outcome (List (List ℤ) × List ℕ)
write_next_at rows current none val = done (rows, current)
write_next_at rows current (some si) val = write_next rows current si val

-- 2) fill array
pub fill : List ℤ → List ℤ → List (List ℤ) → List ℕ → Outcome (List (List ℤ))
unfolding write_next_at
fill splitters [] rows current = done rows
fill splitters (val ∷ vals) rows current = do
  w ← write_next_at rows current (pick_from 0 splitters val) val
  fill splitters vals w.0 w.1

-- `junk` stands in the arrays that `malloc` gives.
pub sub_arrays : ℤ → ℕ → List ℤ → List ℤ → Outcome (List ℕ × List (List ℤ))
sub_arrays junk bucket_count splitters values = do
  counts ← get_counts splitters values (replicate bucket_count 0)
  rows ← fill splitters values (map (λ c. replicate c junk) counts) (replicate bucket_count 0)
  done (counts, rows)

-- handle_SetSubArrayMsg: `counts[i]` values of each sub-array, one after the other. The index runs
-- from 0 to the sum of the counts, the size of the array that is filled.
unfoldable pub rebuild : List ℕ → List (List ℤ) → Outcome (List ℤ)
rebuild [] _ = done []
rebuild (c ∷ counts) [] = fault
rebuild (c ∷ counts) (row ∷ rows) = do
  rest ← rebuild counts rows
  if leb c (length row) then done (take c row ++ rest) else fault

-- Final sorting.
unfoldable pub final_sort : Qsort → List ℤ → List ℤ
final_sort lib values = lib.qsort cmpfunc values
