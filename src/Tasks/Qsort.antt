-- ===== src/Tasks/Qsort.antt =====
-- The comparison that the sorting tasks hand to the C library's qsort, and what they rely on of it.
use mathlib.Core.List.{Perm, Pairwise, Mem}
use francois_gingras_master.Common.{
  ◌+◌, ◌^◌, ◌≤◌, ◌<◌, ◌↔◌, List, ℤ, pos, ◌≤ℤ◌, sub_ℕ, pos_part, neg_part, arith, ◌≡◌, Outcome, done,
  in_range, in_range-done,
}

-- buckettask_cmpfunc and samplesorttask_cmpfunc: the difference of two ints; where it is no int, a
-- fault.
unfoldable pub cmpfunc : ℤ → ℤ → Outcome ℤ
cmpfunc a b = in_range (2 ^ 31) (sub_ℕ (pos_part a + neg_part b) (pos_part b + neg_part a))

-- The comparison of two values returns, and is not positive exactly when the first is not greater.
abbrev pub Orders : (ℤ → ℤ → Outcome ℤ) → ℤ → ℤ → Type 0
Orders cmp a b = (d : ℤ) × (cmp a b ≡ done d) × ((d ≤ℤ pos 0) ↔ (a ≤ℤ b))

-- Where the difference of two ints is an int.
pub cmpfunc-Orders :
    (a b : ℤ)
    → pos_part a + neg_part b < 2 ^ 31 + (pos_part b + neg_part a)
    → pos_part b + neg_part a ≤ 2 ^ 31 + (pos_part a + neg_part b)
    → Orders cmpfunc a b
unfolding cmpfunc
cmpfunc-Orders a b ha hb =
    let d = sub_ℕ (pos_part a + neg_part b) (pos_part b + neg_part a) in
    (
      d,
      in_range-done (2 ^ 31) d (ground (arith, ha)) (ground (arith, hb)),
      (λ h. ground arith, λ h. ground arith),
    )

-- Strictly between -2^30 and 2^30.
abbrev pub IsModerate : ℤ → Type 0
IsModerate a = pos_part a + neg_part a < 2 ^ 30

abbrev pub IsSorted : List ℤ → Type 0
IsSorted = Pairwise ◌≤ℤ◌

-- On a list whose values the comparison orders, qsort gives an ascending rearrangement. Of a list with
-- a comparison that faults nothing is known.
pub record Qsort : Type 0 where
  pub qsort : (ℤ → ℤ → Outcome ℤ) → List ℤ → List ℤ
  pub qsort-perm :
      (cmp : ℤ → ℤ → Outcome ℤ) (l : List ℤ)
      → ((a : ℤ) → Mem a l → (b : ℤ) → Mem b l → Orders cmp a b)
      → Perm (qsort cmp l) l
  pub qsort-IsSorted :
      (cmp : ℤ → ℤ → Outcome ℤ) (l : List ℤ)
      → ((a : ℤ) → Mem a l → (b : ℤ) → Mem b l → Orders cmp a b)
      → IsSorted (qsort cmp l)
