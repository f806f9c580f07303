-- ===== src/Tasks/BucketTask/Partition.antt =====
-- The counts and the sub-arrays that a bucket makes of its part of the data, value by value.
pub mod Fill
pub mod Order
use mathlib.Core.List.{
  Perm, Mem, flatten, perm_middle, mem-append, mem-cons, mem-cons_self, not-mem-nil,
  forall_mem-cons, mem-append_left, mem-append_right,
}
use mathlib.Core.List.Perm
use mathlib.Core.Logic.Or
use francois_gingras_master.Common.{
  ℕ, zero, suc, ◌+◌, ◌-◌, ◌≤◌, ◌<◌, ◌≡◌, ◌≢◌, refl, ap, sym, ◌∙◌, Bool-cases, inl, inr, some, List,
  [], ◌∷◌, ◌++◌, append-nil, append_assoc, replicate, map, length, length-append, take, set, done,
  arith, ltb, leb, if◌then◌else◌, ℤ, ◌≤ℤ◌, leb_ℤ,
}
use francois_gingras_master.Tasks.BucketTask.{
  pick_from, increment, increment_at, get_counts, write_next, write_next_at, fill, sub_arrays,
}

-- The sub-array of the value, by position among the splitters.
pub pick : List ℤ → ℤ → ℕ
pick [] val = 0
pick (s ∷ []) val = 0
pick (s ∷ s' ∷ splitters) val =
    let rest = suc (pick (s' ∷ splitters) val) in if leb_ℤ val s then 0 else rest

-- One more in a count, one more value at the end of a sub-array.
abbrev bump : List ℕ → ℕ → List ℕ
bump [] i = []
bump (c ∷ cs) zero = suc c ∷ cs
bump (c ∷ cs) (suc i) = c ∷ bump cs i

abbrev pub push_at : List (List ℤ) → ℕ → ℤ → List (List ℤ)
push_at [] i val = []
push_at (r ∷ rows) zero val = (r ++ (val ∷ [])) ∷ rows
push_at (r ∷ rows) (suc i) val = r ∷ push_at rows i val

-- The sub-arrays, built value by value.
pub distribute : List ℤ → List ℤ → List (List ℤ) → List (List ℤ)
distribute splitters [] rows = rows
distribute splitters (val ∷ vals) rows =
    distribute splitters vals (push_at rows (pick splitters val) val)

count_all : List ℤ → List ℤ → List ℕ → List ℕ
count_all splitters [] counts = counts
count_all splitters (val ∷ vals) counts =
    count_all splitters vals (bump counts (pick splitters val))

pick_from-pick :
    (i : ℕ) (s : ℤ) (splitters : List ℤ) (val : ℤ)
    → pick_from i (s ∷ splitters) val ≡ some (i + pick (s ∷ splitters) val)
unfolding pick_from pick
pick_from-pick i s [] val = ap some (omega arith)
pick_from-pick i s (s' ∷ splitters) val = elim (Bool-cases (leb_ℤ val s)) [
  | inl e ↦ rw e (ap some (omega arith))
  | inr e ↦ rw e (pick_from-pick (i + 1) s' splitters val ∙ ap some (omega arith))
]

pick-lt : (s : ℤ) (splitters : List ℤ) (val : ℤ) → pick (s ∷ splitters) val < suc (length splitters)
unfolding pick
pick-lt s [] val = omega arith
pick-lt s (s' ∷ splitters) val = ground (arith, pick-lt s' splitters val)

increment-bump :
    (counts : List ℕ) (i : ℕ) → i < length counts → increment counts i ≡ done (bump counts i)
unfolding increment
increment-bump [] i h = elim h [ ]
increment-bump (c ∷ cs) zero h = ap (λ k. done (k ∷ cs)) (omega arith)
increment-bump (c ∷ cs) (suc i) h = rw (increment-bump cs i (omega arith))

length-bump : (counts : List ℕ) (i : ℕ) → length (bump counts i) ≡ length counts
length-bump [] i = refl
length-bump (c ∷ cs) zero = refl
length-bump (c ∷ cs) (suc i) = ap suc (length-bump cs i)

bump_comm : (counts : List ℕ) (i j : ℕ) → bump (bump counts i) j ≡ bump (bump counts j) i
bump_comm [] i j = refl
bump_comm (c ∷ cs) zero zero = refl
bump_comm (c ∷ cs) zero (suc j) = refl
bump_comm (c ∷ cs) (suc i) zero = refl
bump_comm (c ∷ cs) (suc i) (suc j) = ap (λ l. c ∷ l) (bump_comm cs i j)

count_all-bump :
    (splitters vals : List ℤ) (counts : List ℕ) (i : ℕ)
    → count_all splitters vals (bump counts i) ≡ bump (count_all splitters vals counts) i
unfolding count_all
count_all-bump splitters [] counts i = refl
count_all-bump splitters (val ∷ vals) counts i =
    ap (count_all splitters vals) (bump_comm counts i (pick splitters val))
    ∙ count_all-bump splitters vals (bump counts (pick splitters val)) i

module _ (s : ℤ) (ss : List ℤ) where
  get_counts-count_all :
      (vals : List ℤ) (counts : List ℕ)
      → length counts ≡ suc (length ss)
      → get_counts (s ∷ ss) vals counts ≡ done (count_all (s ∷ ss) vals counts)
  unfolding get_counts count_all
  get_counts-count_all [] counts h = refl
  get_counts-count_all (val ∷ vals) counts h =
      rw
        (
          pick_from-pick 0 s ss val,
          increment_at,
          increment-bump counts (0 + pick (s ∷ ss) val) (omega (arith, pick-lt s ss val)),
        )
        (get_counts-count_all vals (bump counts (0 + pick (s ∷ ss) val))
            (length-bump counts (0 + pick (s ∷ ss) val) ∙ h)
          ∙ ap (λ k. done (count_all (s ∷ ss) vals (bump counts k))) (omega arith))
