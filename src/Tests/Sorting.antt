-- ===== src/Tests/Sorting.antt =====
-- The theorems on the sample sort, with insertion sort for the C library's qsort.
use mathlib.Core.List.{
  Perm, Permᴰ, Mem, Pairwise, flatten, reverse, forall_mem-cons, not-mem-nil, mem-cons_self,
  mem-cons_of_mem, Pairwise-cons,
}
use mathlib.Core.List.Perm
use mathlib.Core.List.Permᴰ
use native.Mathlib.Bridge.{le_prop}
use francois_gingras_master.Common.{
  Outcome, Bool, true, false, sym, ap, ◌∙◌, ℕ, zero, suc, ◌≤◌, ◌≡◌, refl, Bool-cases, inl, inr,
  some, List, [], ◌∷◌, length, map, replicate, length-replicate, done, ℤ, pos, negsuc, ◌≤ℤ◌, leb_ℤ,
  if◌then◌else◌, arith,
}
use francois_gingras_master.Tasks.Qsort.{Qsort, Orders, IsModerate, IsSorted}
use francois_gingras_master.Tasks.BucketTask.{sub_arrays}
use francois_gingras_master.Tasks.BucketTask.Partition.{distribute}
use francois_gingras_master.Tasks.BucketTask.Partition.Fill.{sub_arrays-distribute}
use francois_gingras_master.Tasks.BucketTask.Partition.Order.{Separated, Each}
use francois_gingras_master.Tasks.SampleSortTask.{sample_sort, random_at_most}
use francois_gingras_master.Tasks.SampleSortTask.Random.{random_at_most-le}
use francois_gingras_master.Tasks.SampleSortTask.Correct.{sample_sort-IsSorted}
use francois_gingras_master.Tasks.SampleSortTask.Correct.Rounds.{sub_arrays-Separated}
use francois_gingras_master.Tasks.SampleSortTask.Correct.Splitters.{AllBelow}

-- A fault counts as greater.
abbrev pub at_most : Outcome ℤ → Bool
at_most (done d) = leb_ℤ d (pos 0)
at_most _ = false

abbrev pub insert_value : (ℤ → ℤ → Outcome ℤ) → ℤ → List ℤ → List ℤ
insert_value cmp x [] = x ∷ []
insert_value cmp x (y ∷ l) =
    let rest = insert_value cmp x l in if at_most (cmp x y) then x ∷ y ∷ l else y ∷ rest

abbrev pub insertion_sort : (ℤ → ℤ → Outcome ℤ) → List ℤ → List ℤ
insertion_sort cmp [] = []
insertion_sort cmp (x ∷ l) = insert_value cmp x (insertion_sort cmp l)

abbrev pub Agrees : (ℤ → ℤ → Outcome ℤ) → List ℤ → Type 0
Agrees cmp l = (a : ℤ) → Mem a l → (b : ℤ) → Mem b l → Orders cmp a b

insert_value-perm :
    (cmp : ℤ → ℤ → Outcome ℤ) (x : ℤ) (l : List ℤ) → Perm (insert_value cmp x l) (x ∷ l)
insert_value-perm cmp x [] = Perm.refl (x ∷ [])
insert_value-perm cmp x (y ∷ l) = elim (Bool-cases (at_most (cmp x y))) [
  | inl le ↦ rw le (Perm.refl (x ∷ y ∷ l))
  | inr gt ↦
      rw gt (
        Perm.trans (Perm.append_left (y ∷ []) (insert_value-perm cmp x l))
          ∣ Permᴰ.swap refl refl ∣₁)
]

pub insertion_sort-perm : (cmp : ℤ → ℤ → Outcome ℤ) (l : List ℤ) → Perm (insertion_sort cmp l) l
insertion_sort-perm cmp [] = Perm.refl []
insertion_sort-perm cmp (x ∷ l) =
    Perm.trans (insert_value-perm cmp x (insertion_sort cmp l))
      (Perm.append_left (x ∷ []) (insertion_sort-perm cmp l))

bounded :
    (y x : ℤ) (l : List ℤ)
    → y ≤ℤ x
    → ((z : ℤ) → Mem z l → y ≤ℤ z)
    → (z : ℤ) → Mem z (x ∷ l)
    → y ≤ℤ z
bounded y x l first below = (forall_mem-cons (λ w. le_prop)).1 (first, below)

greater : (x y d : ℤ) → leb_ℤ d (pos 0) ≡ false → (x ≤ℤ y → d ≤ℤ pos 0) → y ≤ℤ x
greater x y d high h = elim (Bool-cases (leb_ℤ y x)) [
  | inl below ↦ ground arith
  | inr above ↦ let no : d ≤ℤ pos 0 = h (ground (arith, above)) in absurd (ground (arith, high, no))
]

insert_value-IsSorted :
    (cmp : ℤ → ℤ → Outcome ℤ) (x : ℤ) (l : List ℤ)
    → Agrees cmp (x ∷ l)
    → IsSorted l
    → IsSorted (insert_value cmp x l)
insert_value-IsSorted cmp x [] h s = Pairwise.cons (λ a m. absurd (not-mem-nil m)) Pairwise.nil
insert_value-IsSorted cmp x (y ∷ l) h s =
    let (below, rest) = Pairwise-cons.0 s in
    let (d, e, agree) = h x mem-cons_self y (mem-cons_of_mem x mem-cons_self) in
    elim (Bool-cases (at_most (cmp x y))) [
      | inl le ↦
          let low : leb_ℤ d (pos 0) ≡ true = sym (ap at_most e) ∙ le in
          let first : x ≤ℤ y = agree.0 (ground (arith, low)) in
          rw le (
            Pairwise.cons
              ((forall_mem-cons (λ z. le_prop)).1 (first, λ z m. let b = below z m in ground arith))
              s)
      | inr gt ↦
          let high : leb_ℤ d (pos 0) ≡ false = sym (ap at_most e) ∙ gt in
          let first : y ≤ℤ x = greater x y d high (agree.1) in
          rw gt (
            Pairwise.cons
              (λ z m. bounded y x l first below z ((Perm.mem_iff (insert_value-perm cmp x l)).0 m))
              (insert_value-IsSorted cmp x l (λ a ma b mb. h a (skip a ma) b (skip b mb)) rest))
    ]
  where
    skip : (a : ℤ) → Mem a (x ∷ l) → Mem a (x ∷ y ∷ l)
    skip a m =
        (Perm.mem_iff {l₁ = y ∷ x ∷ l} {l₂ = x ∷ y ∷ l} ∣ Permᴰ.swap refl refl ∣₁).0
          (mem-cons_of_mem y m)

pub insertion_sort-IsSorted :
    (cmp : ℤ → ℤ → Outcome ℤ) (l : List ℤ) → Agrees cmp l → IsSorted (insertion_sort cmp l)
insertion_sort-IsSorted cmp [] h = Pairwise.nil
insertion_sort-IsSorted cmp (x ∷ l) h =
    let p = Perm.append_left (x ∷ []) (insertion_sort-perm cmp l) in
    insert_value-IsSorted cmp x (insertion_sort cmp l)
      (λ a ma b mb. h a ((Perm.mem_iff p).0 ma) b ((Perm.mem_iff p).0 mb))
      (insertion_sort-IsSorted cmp l
        (λ a ma b mb. h a (mem-cons_of_mem x ma) b (mem-cons_of_mem x mb)))

abbrev pub library : Qsort
library = record {
  qsort = insertion_sort;
  qsort-perm = λ cmp l h. insertion_sort-perm cmp l;
  qsort-IsSorted = insertion_sort-IsSorted;
}

abbrev pub input : List ℤ
input = pos 3 ∷ pos 20 ∷ negsuc 4 ∷ []

abbrev pub positions : List ℕ
positions = replicate 1500 1

pub positions_below : (n : ℕ) → AllBelow 3 (replicate n 1)
positions_below zero = tt
positions_below (suc n) = (omega arith, positions_below n)

pub input-IsModerate : Each IsModerate input
input-IsModerate = (forall_mem-cons (λ z. le_prop)).1 (
  omega arith,
  (forall_mem-cons (λ z. le_prop)).1 (
    omega arith,
    (forall_mem-cons (λ z. le_prop)).1 (omega arith, λ x m. absurd (not-mem-nil m)),
  ),
)

sample_sort-IsSorted_example :
    (finals : List (List ℤ)) × (sample_sort library reverse (pos 9) 2 positions input ≡ done finals)
    × (length finals ≡ 2)
    × IsSorted (flatten finals)
    × Perm (flatten finals) input
sample_sort-IsSorted_example =
    sample_sort-IsSorted library reverse (λ l. Permᴰ.symm (Permᴰ.reverse l)) (pos 9) 1 positions
      input (length-replicate {A = ℕ} 1500 1) (positions_below 1500) input-IsModerate

sub_arrays-distribute_example :
    let rows = distribute (pos 10 ∷ pos 1000000 ∷ []) input ([] ∷ [] ∷ []) in
    sub_arrays (pos 9) 2 (pos 10 ∷ pos 1000000 ∷ []) input ≡ done (map length rows, rows)
sub_arrays-distribute_example = sub_arrays-distribute (pos 9) (pos 10) (pos 1000000 ∷ []) input

sub_arrays-Separated_example :
    (rows : List (List ℤ)) × (sub_arrays (pos 9) 2 (pos 10 ∷ pos 1000000 ∷ []) input
      ≡ done (map length rows, rows))
    × (length rows ≡ 2)
    × Perm (flatten rows) input
    × Separated (pos 10 ∷ pos 1000000 ∷ []) rows
sub_arrays-Separated_example = sub_arrays-Separated (pos 9) (pos 10) (pos 1000000 ∷ []) input

rejected_first : random_at_most 9 (2147483647 ∷ 430000000 ∷ []) ≡ some (2, [])
unfolding random_at_most
rejected_first = refl

random_at_most-le_example : 2 ≤ 9
random_at_most-le_example =
    random_at_most-le 9 2 (2147483647 ∷ 430000000 ∷ []) [] (omega arith) rejected_first
