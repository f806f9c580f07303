-- ===== src/Tasks/SampleSortTask/Correct.antt =====
-- A whole run of the sample sort.
pub mod Rounds
pub mod Splitters
mod Output
use mathlib.Core.List.{Perm, Permᴰ, flatten}
use mathlib.Core.List.Perm
use francois_gingras_master.Common.{
  ℕ, suc, ◌≡◌, refl, ap, sym, ◌∙◌, List, [], ◌∷◌, map, length, ◌/◌, done, ◌>>=◌, ℤ, arith,
}
use francois_gingras_master.Tasks.Qsort.{Qsort, IsModerate, IsSorted}
use francois_gingras_master.Tasks.BucketTask.{final_sort}
use francois_gingras_master.Tasks.BucketTask.Partition.Order.{Each, Each-perm}
use francois_gingras_master.Tasks.SampleSortTask.{
  SubArrays, sample_size, get_samples, get_splitters, parts, bucket_replies, outputs, sample_sort,
}
use francois_gingras_master.Tasks.SampleSortTask.Merge.{
  merged, AllReplies, all_values, length-merged, merged-Separated, merged-perm,
}
use Rounds.{
  parts-flatten, replies_of, bucket_replies-replies_of, replies_of-AllReplies, replies_of-perm,
  AllReplies-perm, all_values-perm, outputs-merged,
}
use Splitters.{AllBelow, get_samples-done, get_splitters-done}
use Output.{outputs-perm, outputs-IsSorted}

length-map : (f : List ℤ → List ℤ) (rows : List (List ℤ)) → length (map f rows) ≡ length rows
length-map f [] = refl
length-map f (r ∷ rows) = ap suc (length-map f rows)

module _ (lib : Qsort) (s : ℤ) (ss : List ℤ) (ps : List (List ℤ)) where
  -- The last round, on replies that are those of the buckets in any order.
  pub last_round :
      (replies : List SubArrays)
      → Permᴰ (replies_of s ss ps) replies
      → Each IsModerate (flatten ps)
      → (finals : List (List ℤ)) × (outputs lib 0 (suc (length ss)) replies ≡ done finals)
        × (length finals ≡ suc (length ss))
        × IsSorted (flatten finals)
        × Perm (flatten finals) (flatten ps)
  last_round replies p h =
      let k : ℕ = suc (length ss) in
      let all = AllReplies-perm k (s ∷ ss) p (replies_of-AllReplies s ss ps) in
      let rows : List (List ℤ) = merged k replies in
      let size : length rows ≡ k = length-merged k (s ∷ ss) replies all in
      let kept =
        Perm.trans (merged-perm k (s ∷ ss) replies all)
          (Perm.trans (Perm.symm (all_values-perm p)) (replies_of-perm s ss ps)) in
      let moderate : Each IsModerate (flatten rows) = Each-perm kept h in
      (
        map (final_sort lib) rows,
        outputs-merged lib k (s ∷ ss) replies all k 0 (omega arith),
        length-map (final_sort lib) rows ∙ size,
        outputs-IsSorted lib s ss rows size (merged-Separated k (s ∷ ss) replies all) moderate,
        Perm.trans (outputs-perm lib rows moderate) kept,
      )

-- With at least one bucket, 1500 positions drawn within the data, and values strictly between -2^30
-- and 2^30, the whole run stays within its arrays, whatever the splitters, the contents of fresh
-- memory and the order in which the buckets' replies arrive. There is one output per bucket, and the
-- outputs one after the other are an ascending rearrangement of the data.
pub sample_sort-IsSorted :
    (lib : Qsort) (arrive : List SubArrays → List SubArrays)
    → ((l : List SubArrays) → Permᴰ l (arrive l))
    → (junk : ℤ) (k : ℕ) (ats : List ℕ) (values : List ℤ) → length ats ≡ sample_size
    → AllBelow (length values) ats
    → Each IsModerate values
    → (finals : List (List ℤ)) × (sample_sort lib arrive junk (suc k) ats values ≡ done finals)
      × (length finals ≡ suc k)
      × IsSorted (flatten finals)
      × Perm (flatten finals) values
unfolding sample_sort
sample_sort-IsSorted lib arrive any junk k ats values drawn below h =
    let (samples, es, size, moderate) = get_samples-done values ats h below in
    let (s, ss, ep, n) = get_splitters-done lib k samples (size ∙ drawn) moderate in
    let ps : List (List ℤ) = parts (suc k) (length values / suc k) values in
    let whole : flatten ps ≡ values = parts-flatten k (length values / suc k) values in
    let (finals, eo, count, sorted, kept) =
      last_round lib s ss ps (arrive (replies_of s ss ps)) (any (replies_of s ss ps))
        (rw whole h) in
    let buckets : bucket_replies junk (suc k) (s ∷ ss) ps ≡ done (replies_of s ss ps) =
      ap (λ m. bucket_replies junk (suc m) (s ∷ ss) ps) (sym n)
      ∙ bucket_replies-replies_of s ss junk ps in
    (
      finals,
      rw (es, ep, buckets)
          (ap (λ m. outputs lib 0 (suc m) (arrive (replies_of s ss ps))) (sym n) ∙ eo),
      count ∙ ap suc n,
      sorted,
      rw whole at kept,
    )
