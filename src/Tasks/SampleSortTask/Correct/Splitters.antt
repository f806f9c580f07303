-- ===== src/Tasks/SampleSortTask/Correct/Splitters.antt =====
-- The samples and the splitters are drawn within their arrays.
use mathlib.Core.List.{
  Mem, Perm, Permᴰ, mem-cons_self, mem-cons_of_mem, not-mem-nil, forall_mem-cons,
}
use mathlib.Core.Logic.{∥∥₁_elim}
use native.Mathlib.Nat.{mul-div-le, mul-le-mul_right}
use native.Mathlib.Bridge.{le_prop}
use francois_gingras_master.Common.{
  ℕ, zero, suc, ◌+◌, ◌*◌, ◌/◌, ◌≤◌, ◌<◌, ◌≡◌, refl, ap, ◌∙◌, some, List, [], ◌∷◌, length, get_elem?,
  get_elem?-some, done, arith, ℤ, pos,
}
use francois_gingras_master.Tasks.Qsort.{Qsort, cmpfunc, Orders, cmpfunc-Orders, IsModerate}
use francois_gingras_master.Tasks.BucketTask.Partition.Order.{Each}
use francois_gingras_master.Tasks.SampleSortTask.{
  sample_size, get_samples, splitters_from, get_splitters,
}

-- Every position is one of an array of n values.
abbrev pub AllBelow : ℕ → List ℕ → Type 0
AllBelow n [] = Unit {0}
AllBelow n (at ∷ ats) = (at < n) × AllBelow n ats

get_elem?-Mem : (l : List ℤ) (i : ℕ) (x : ℤ) → get_elem? l i ≡ some x → Mem x l
get_elem?-Mem [] i x h = absurd (cc)
get_elem?-Mem (y ∷ l) zero x h = let same : y ≡ x = cc in rw same mem-cons_self
get_elem?-Mem (y ∷ l) (suc i) x h = mem-cons_of_mem y (get_elem?-Mem l i x h)

-- On values of moderate size the comparison orders as the numbers do.
pub cmpfunc_moderate :
    (l : List ℤ) → Each IsModerate l → (a : ℤ) → Mem a l → (b : ℤ) → Mem b l → Orders cmpfunc a b
cmpfunc_moderate l h a ma b mb =
    let ha = h a ma in let hb = h b mb in cmpfunc-Orders a b (omega arith) (omega arith)

pub get_samples-done :
    (values : List ℤ) (ats : List ℕ)
    → Each IsModerate values
    → AllBelow (length values) ats
    → (samples : List ℤ) × (get_samples values ats ≡ done samples)
      × (length samples ≡ length ats)
      × Each IsModerate samples
unfolding get_samples
get_samples-done values [] h b = ([], refl, refl, λ x m. absurd (not-mem-nil m))
get_samples-done values (at ∷ ats) h b =
    let (samples, e, size, each) = get_samples-done values ats h b.1 in
    let (x, ex) = get_elem?-some values at b.0 in
    (
      x ∷ samples,
      rw (ex, e),
      ap suc size,
      (forall_mem-cons (λ y. le_prop)).1 (h x (get_elem?-Mem values at x ex), each),
    )

splitters_from-done :
    (samples : List ℤ) (step m n i : ℕ)
    → i + n ≡ m
    → m * step < length samples
    → (s : ℤ) × (ss : List ℤ) × (splitters_from samples step i n ≡ done (s ∷ ss)) × (length ss ≡ n)
unfolding splitters_from
splitters_from-done samples step m zero i e h = (pos 1000000, [], refl, refl)
splitters_from-done samples step m (suc n) i e h =
    let below : i + 1 ≤ m = omega arith in
    let (s, es) =
      get_elem?-some samples ((i + 1) * step) (omega (arith, mul-le-mul_right step below)) in
    let (s', ss, er, size) = splitters_from-done samples step m n (i + 1) (omega arith) h in
    (s, s' ∷ ss, rw (es, er), ap suc size)

length-permᴰ : {l r : List ℤ} → Permᴰ l r → length l ≡ length r
length-permᴰ Permᴰ.nil = refl
length-permᴰ (Permᴰ.cons e p) = ap suc (length-permᴰ p)
length-permᴰ (Permᴰ.swap d e) = refl
length-permᴰ (Permᴰ.trans p q) = length-permᴰ p ∙ length-permᴰ q

length-perm : {l r : List ℤ} → Perm l r → length l ≡ length r
length-perm {l} {r} p =
    let prop : IsProp (length l ≡ length r) = hlevel in ∥∥₁_elim p prop length-permᴰ

last_splitter : (k n : ℕ) → 0 < n → k * (n / suc k) < n
last_splitter k n h =
    let all : suc k * (n / suc k) ≤ n = mul-div-le n (suc k) in
    let step : ℕ = n / suc k in ground (arith, all)

pub get_splitters-done :
    (lib : Qsort) (k : ℕ) (samples : List ℤ)
    → length samples ≡ sample_size
    → Each IsModerate samples
    → (s : ℤ) × (ss : List ℤ) × (get_splitters lib (suc k) samples ≡ done (s ∷ ss))
      × (length ss ≡ k)
unfolding get_splitters
get_splitters-done lib k samples size h =
    let sorted : List ℤ = lib.qsort cmpfunc samples in
    let same : length sorted ≡ length samples =
      length-perm (lib.qsort-perm cmpfunc samples (cmpfunc_moderate samples h)) in
    splitters_from-done sorted (sample_size / suc k) k k 0 (omega arith)
      (omega (arith, same, size, last_splitter k sample_size (omega arith)))
