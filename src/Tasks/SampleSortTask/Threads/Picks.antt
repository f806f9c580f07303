-- ===== src/Tasks/SampleSortTask/Threads/Picks.antt =====
-- Counting the threads that are so far, and changing one thread of a list.
use mathlib.Core.List.{Permᴰ}
use mathlib.Core.List.Permᴰ
use francois_gingras_master.Common.{
  ℕ, zero, suc, ◌+◌, ◌≤◌, ◌<◌, ◌≡◌, ◌≢◌, ◌⊎◌, inl, inr, refl, sym, ap, ◌∙◌, Bool, true, false,
  Bool-cases, some, List, [], ◌∷◌, length, set, get_elem?, arith,
}
use francois_gingras_master.Tasks.SampleSortTask.Threads.{BucketThread}
use francois_gingras_master.Tasks.SampleSortTask.Threads.Stages.{pick_where}

pub set_self {ℓ} :
    {A : Type ℓ} (l : List A) (i : ℕ) (v : A) → get_elem? l i ≡ some v → set l i v ≡ l
set_self [] i v e = refl
set_self (x ∷ l) zero v e = ap (λ y. y ∷ l) (cc)
set_self (x ∷ l) (suc i) v e = ap (λ r. x ∷ r) (set_self l i v e)

-- An entry after a change is the new one, or an old one elsewhere.
pub set_cases {ℓ} :
    {A : Type ℓ} (l : List A) (i : ℕ) (v : A) (j : ℕ) (w : A)
    → get_elem? (set l i v) j ≡ some w
    → ((i ≡ j) × (v ≡ w)) ⊎ ((i ≢ j) × (get_elem? l j ≡ some w))
set_cases [] i v j w e = absurd (cc)
set_cases (x ∷ l) zero v zero w e = inl (refl, cc)
set_cases (x ∷ l) zero v (suc j) w e = inr ((λ z. omega arith), e)
set_cases (x ∷ l) (suc i) v zero w e = inr ((λ z. omega arith), e)
set_cases (x ∷ l) (suc i) v (suc j) w e = elim (set_cases l i v j w e) [
  | inl (a, b) ↦ inl (ap suc a, b)
  | inr (a, b) ↦ inr ((λ z. a (omega arith)), b)
]

pub length-permᴰ {ℓ} : {A : Type ℓ} {l r : List A} → Permᴰ l r → length l ≡ length r
length-permᴰ Permᴰ.nil = refl
length-permᴰ (Permᴰ.cons e p) = ap suc (length-permᴰ p)
length-permᴰ (Permᴰ.swap d e) = refl
length-permᴰ (Permᴰ.trans p q) = length-permᴰ p ∙ length-permᴰ q

module _ {ℓ} {A : Type ℓ} (p : BucketThread → Bool) where
  pub pick_where-le : (ts : List BucketThread) (l : List A) → length (pick_where p ts l) ≤ length l
  unfolding pick_where
  pick_where-le [] l = omega arith
  pick_where-le (t ∷ ts) [] = omega arith
  pick_where-le (t ∷ ts) (a ∷ l) = ground (arith, pick_where-le ts l)

  -- A change of a thread that is as far as before.
  pub pick_where_same :
      (ts : List BucketThread) (l : List A) (i : ℕ) (t t' : BucketThread)
      → get_elem? ts i ≡ some t
      → p t' ≡ p t
      → pick_where p (set ts i t') l ≡ pick_where p ts l
  unfolding pick_where
  pick_where_same [] l i t t' e same = refl
  pick_where_same (u ∷ ts) [] zero t t' e same = refl
  pick_where_same (u ∷ ts) [] (suc i) t t' e same = refl
  pick_where_same (u ∷ ts) (a ∷ l) zero t t' e same =
      let here : u ≡ t = cc in let agree : p t' ≡ p u = same ∙ ap p (sym here) in rw agree refl
  pick_where_same (u ∷ ts) (a ∷ l) (suc i) t t' e same =
      rw (pick_where_same ts l i t t' e same) refl

  -- A thread that has come so far.
  pub pick_where_more :
      (ts : List BucketThread) (l : List A) (i : ℕ) (t t' : BucketThread) (a : A)
      → get_elem? ts i ≡ some t
      → get_elem? l i ≡ some a
      → p t ≡ false
      → p t' ≡ true
      → Permᴰ (pick_where p (set ts i t') l) (a ∷ pick_where p ts l)
  unfolding pick_where
  pick_where_more [] l i t t' a e at before now = absurd (cc)
  pick_where_more (u ∷ ts) [] i t t' a e at before now = absurd (cc)
  pick_where_more (u ∷ ts) (b ∷ l) zero t t' a e at before now =
      let here : u ≡ t = cc in
      let waits : p u ≡ false = ap p here ∙ before in
      let first : b ≡ a = cc in rw (now, waits) (Permᴰ.cons first (Permᴰ.refl (pick_where p ts l)))
  pick_where_more (u ∷ ts) (b ∷ l) (suc i) t t' a e at before now =
      let ih = pick_where_more ts l i t t' a e at before now in
      elim (Bool-cases (p u)) [
        | inl so ↦ rw so (Permᴰ.trans (Permᴰ.cons refl ih) (Permᴰ.swap refl refl))
        | inr not_so ↦ rw not_so ih
      ]

  -- All of them are so far.
  pub pick_where_all :
      (ts : List BucketThread) (l : List A)
      → length ts ≡ length l
      → length l ≤ length (pick_where p ts l)
      → (pick_where p ts l ≡ l)
        × ((i : ℕ) (t : BucketThread) → get_elem? ts i ≡ some t → p t ≡ true)
  unfolding pick_where
  pick_where_all [] [] same all = (refl, λ i t e. absurd (cc))
  pick_where_all [] (a ∷ l) same all = absurd (omega arith)
  pick_where_all (u ∷ ts) [] same all = absurd (omega arith)
  pick_where_all (u ∷ ts) (a ∷ l) same all = elim (Bool-cases (p u)) [
    | inl so ↦
        let few : suc (length l) ≤ suc (length (pick_where p ts l)) = rw so at all in
        let ih = pick_where_all ts l (omega arith) (omega arith) in
        (rw (so, ih.0) refl, every so (ih.1))
    | inr not_so ↦
        let few : suc (length l) ≤ length (pick_where p ts l) = rw not_so at all in
        absurd (omega (arith, pick_where-le ts l))
  ]
    where
      every :
          p u ≡ true
          → ((i : ℕ) (t : BucketThread) → get_elem? ts i ≡ some t → p t ≡ true)
          → (i : ℕ) (t : BucketThread) → get_elem? (u ∷ ts) i ≡ some t
          → p t ≡ true
      every so ih zero t e = let here : u ≡ t = cc in ap p (sym here) ∙ so
      every so ih (suc i) t e = ih i t e

  -- One is not.
  pub pick_where_missing :
      (ts : List BucketThread) (l : List A)
      → length ts ≡ length l
      → length (pick_where p ts l) < length l
      → (i : ℕ) × (t : BucketThread) × (get_elem? ts i ≡ some t) × (p t ≡ false)
  unfolding pick_where
  pick_where_missing [] [] same less = absurd (omega arith)
  pick_where_missing [] (a ∷ l) same less = absurd (omega arith)
  pick_where_missing (u ∷ ts) [] same less = absurd (omega arith)
  pick_where_missing (u ∷ ts) (a ∷ l) same less = elim (Bool-cases (p u)) [
    | inl so ↦
        let few : suc (length (pick_where p ts l)) < suc (length l) = rw so at less in
        let (i, t, e, behind) = pick_where_missing ts l (omega arith) (omega arith) in
        (suc i, t, e, behind)
    | inr not_so ↦ (zero, u, refl, not_so)
  ]

  -- None is.
  pub pick_where_none :
      (ts : List BucketThread) (l : List A)
      → ((i : ℕ) (t : BucketThread) → get_elem? ts i ≡ some t → p t ≡ false)
      → pick_where p ts l ≡ []
  unfolding pick_where
  pick_where_none [] l none_so = refl
  pick_where_none (u ∷ ts) [] none_so = refl
  pick_where_none (u ∷ ts) (a ∷ l) none_so =
      rw (none_so zero u refl, pick_where_none ts l (λ i t e. none_so (suc i) t e)) refl

-- What all threads together have left to do.
unfoldable pub steps_left : List BucketThread → ℕ
steps_left [] = 0
steps_left (t ∷ ts) = length t.todo + steps_left ts

pub steps_left-set :
    (ts : List BucketThread) (i : ℕ) (t t' : BucketThread)
    → get_elem? ts i ≡ some t
    → steps_left (set ts i t') + length t.todo ≡ steps_left ts + length t'.todo
unfolding steps_left
steps_left-set [] i t t' e = absurd (cc)
steps_left-set (u ∷ ts) zero t t' e = let here : u ≡ t = cc in rw here (omega arith)
steps_left-set (u ∷ ts) (suc i) t t' e = omega (arith, steps_left-set ts i t t' e)
