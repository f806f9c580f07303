-- ===== src/Tasks/BucketTask/Partition/Order.antt =====
-- The sub-arrays hold the values that were put in, each once, and are in order among one another.
use mathlib.Core.List.{Perm, Mem, flatten, perm_middle, mem-append, not-mem-nil, forall_mem-cons}
use mathlib.Core.List.Perm
use mathlib.Core.Logic.Or
use mathlib.Core.HLevel.{¬_prop}
use native.Mathlib.Bridge.{le_prop}
use francois_gingras_master.Common.{
  ℕ, zero, suc, ◌<◌, ◌≡◌, refl, ◌∙◌, Bool-cases, inl, inr, List, [], ◌∷◌, ◌++◌, append_assoc,
  length, arith, ℤ, ◌≤ℤ◌, leb_ℤ,
}
use francois_gingras_master.Tasks.BucketTask.Partition.{pick, pick-lt, push_at, distribute}
use francois_gingras_master.Tasks.BucketTask.Partition.Fill.{length-push_at}

-- Every member has the property.
abbrev pub Each : (ℤ → Type 0) → List ℤ → Type 0
Each P l = (x : ℤ) → Mem x l → P x

pub Each-perm : {P : ℤ → Type 0} {l r : List ℤ} → Perm l r → Each P r → Each P l
Each-perm p h x m = h x ((Perm.mem_iff p).0 m)

pub Each-append :
    {P : ℤ → Type 0} {l r : List ℤ}
    → ((x : ℤ) → IsProp (P x))
    → Each P l
    → Each P r
    → Each P (l ++ r)
Each-append prop hl hr x m = Or.elim (prop x) (mem-append.0 m) (hl x) (hr x)

pub Each-snoc :
    {P : ℤ → Type 0} {l : List ℤ} (a : ℤ)
    → ((x : ℤ) → IsProp (P x))
    → Each P l
    → P a
    → Each P (l ++ (a ∷ []))
Each-snoc a prop h p =
    Each-append prop h ((forall_mem-cons prop).1 (p, λ x m. absurd (not-mem-nil m)))

pub push_at-perm :
    (rows : List (List ℤ)) (i : ℕ) (val : ℤ)
    → i < length rows
    → Perm (flatten (push_at rows i val)) (val ∷ flatten rows)
unfolding flatten
push_at-perm [] i val h = elim h [ ]
push_at-perm (r ∷ rows) zero val h =
    rw (append_assoc r (val ∷ []) (flatten rows)) (perm_middle r (flatten rows))
push_at-perm (r ∷ rows) (suc i) val h =
    Perm.trans (Perm.append_left r (push_at-perm rows i val (omega arith)))
      (perm_middle r (flatten rows))

-- The sub-arrays together are a rearrangement of the values that were put in and of those that were
-- there.
pub distribute-perm :
    (s : ℤ) (ss vals : List ℤ) (rows : List (List ℤ))
    → length rows ≡ suc (length ss)
    → Perm (flatten (distribute (s ∷ ss) vals rows)) (vals ++ flatten rows)
unfolding distribute
distribute-perm s ss [] rows h = Perm.refl (flatten rows)
distribute-perm s ss (val ∷ vals) rows h =
    let p : ℕ = pick (s ∷ ss) val in
    Perm.trans (distribute-perm s ss vals (push_at rows p val) (length-push_at rows p val ∙ h)) (
      Perm.trans (Perm.append_left vals (push_at-perm rows p val (omega (arith, pick-lt s ss val))))
        (perm_middle vals (flatten rows)))

pub length-distribute :
    (splitters vals : List ℤ) (rows : List (List ℤ))
    → length (distribute splitters vals rows) ≡ length rows
unfolding distribute
length-distribute splitters [] rows = refl
length-distribute splitters (val ∷ vals) rows =
    length-distribute splitters vals (push_at rows (pick splitters val) val)
    ∙ length-push_at rows (pick splitters val) val

-- Every splitter but the last is an upper bound of its sub-array, and less than all that stands in
-- the later ones.
abbrev pub Separated : List ℤ → List (List ℤ) → Type 0
Separated (s ∷ s' ∷ ss) (r ∷ rows) =
    Each (λ x. x ≤ℤ s) r × Each (λ x. ¬ (x ≤ℤ s)) (flatten rows) × Separated (s' ∷ ss) rows
Separated _ _ = Unit {0}

pub push_at-Separated :
    (s : ℤ) (ss : List ℤ) (rows : List (List ℤ)) (val : ℤ)
    → length rows ≡ suc (length ss)
    → Separated (s ∷ ss) rows
    → Separated (s ∷ ss) (push_at rows (pick (s ∷ ss) val) val)
unfolding pick
push_at-Separated s [] rows val e h = tt
push_at-Separated s (s' ∷ ss) [] val e h = h
push_at-Separated s (s' ∷ ss) (r ∷ rows) val e h = elim (Bool-cases (leb_ℤ val s)) [
  | inl le ↦ rw le (Each-snoc val (λ x. le_prop) h.0 (ground arith), h.1, h.2)
  | inr gt ↦ rw gt (
    h.0,
    Each-perm (push_at-perm rows (pick (s' ∷ ss) val) val (omega (arith, pick-lt s' ss val)))
        ((forall_mem-cons (λ x. ¬_prop)).1 (λ k. ground arith, h.1)),
    push_at-Separated s' ss rows val (omega arith) h.2,
  )
]

pub distribute-Separated :
    (s : ℤ) (ss vals : List ℤ) (rows : List (List ℤ))
    → length rows ≡ suc (length ss)
    → Separated (s ∷ ss) rows
    → Separated (s ∷ ss) (distribute (s ∷ ss) vals rows)
unfolding distribute
distribute-Separated s ss [] rows e h = h
distribute-Separated s ss (val ∷ vals) rows e h =
    let p : ℕ = pick (s ∷ ss) val in
    distribute-Separated s ss vals (push_at rows p val) (length-push_at rows p val ∙ e)
      (push_at-Separated s ss rows val e h)
