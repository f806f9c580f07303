-- ===== src/Tasks/SampleSortTask/Correct/Output.antt =====
-- The outputs of the buckets, one after the other, are ascending.
use mathlib.Core.List.{Perm, flatten, Pairwise-append, mem-append_left, mem-append_right}
use mathlib.Core.List.Perm
use native.Mathlib.Bridge.{le_prop}
use francois_gingras_master.Common.{suc, ◌≡◌, List, [], ◌∷◌, append-nil, map, length, arith, ℤ}
use francois_gingras_master.Tasks.Qsort.{Qsort, cmpfunc, IsModerate, IsSorted}
use francois_gingras_master.Tasks.BucketTask.{final_sort}
use francois_gingras_master.Tasks.BucketTask.Partition.Order.{Each, Separated}
use francois_gingras_master.Tasks.SampleSortTask.Correct.Splitters.{cmpfunc_moderate}

module _ (lib : Qsort) where
  final_sort-perm : (l : List ℤ) → Each IsModerate l → Perm (final_sort lib l) l
  unfolding final_sort
  final_sort-perm l h = lib.qsort-perm cmpfunc l (cmpfunc_moderate l h)

  final_sort-IsSorted : (l : List ℤ) → Each IsModerate l → IsSorted (final_sort lib l)
  unfolding final_sort
  final_sort-IsSorted l h = lib.qsort-IsSorted cmpfunc l (cmpfunc_moderate l h)

  pub outputs-perm :
      (rows : List (List ℤ))
      → Each IsModerate (flatten rows)
      → Perm (flatten (map (final_sort lib) rows)) (flatten rows)
  unfolding flatten
  outputs-perm [] h = Perm.refl []
  outputs-perm (r ∷ rows) h =
      Perm.trans
        (Perm.append_right (flatten (map (final_sort lib) rows))
          (final_sort-perm r (λ x m. h x (mem-append_left (flatten rows) m))))
        (Perm.append_left r (outputs-perm rows (λ x m. h x (mem-append_right r m))))

  pub outputs-IsSorted :
      (s : ℤ) (ss : List ℤ) (rows : List (List ℤ))
      → length rows ≡ suc (length ss)
      → Separated (s ∷ ss) rows
      → Each IsModerate (flatten rows)
      → IsSorted (flatten (map (final_sort lib) rows))
  unfolding flatten
  outputs-IsSorted s ss [] e sep h = absurd (omega arith)
  outputs-IsSorted s [] (r ∷ r' ∷ rows) e sep h = absurd (omega arith)
  outputs-IsSorted s [] (r ∷ []) e sep h =
      rw (append-nil (final_sort lib r)) (final_sort-IsSorted r (λ x m. h x (mem-append_left [] m)))
  outputs-IsSorted s (s' ∷ ss) (r ∷ rows) e sep h =
      let here : Each IsModerate r = λ x m. h x (mem-append_left (flatten rows) m) in
      let later : Each IsModerate (flatten rows) = λ x m. h x (mem-append_right r m) in
      (Pairwise-append (λ a b. le_prop)).1 (
        final_sort-IsSorted r here,
        outputs-IsSorted s' ss rows (omega arith) sep.2 later,
        λ a ma b mb.
            let low = sep.0 a ((Perm.mem_iff (final_sort-perm r here)).0 ma) in
            let high = sep.1 b ((Perm.mem_iff (outputs-perm rows later)).0 mb) in
            ground (arith, low, high),
      )
