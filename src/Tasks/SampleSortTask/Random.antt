-- ===== src/Tasks/SampleSortTask/Random.antt =====
-- The draws of random_at_most are within their bound, and every value has as many draws as another.
use native.Mathlib.Nat.{
  div-lt_iff_lt-mul, le-div_iff_mul-le, mul-le-mul_right, div-add-mod, mul-add-div_right,
  div-eq_of_lt,
}
use francois_gingras_master.Common.{
  ℕ, suc, ◌+◌, ◌-◌, ◌*◌, ◌/◌, ◌%◌, ◌≤◌, ◌<◌, ◌≡◌, ap, ◌∙◌, Bool-cases, inl, inr, Option, some, List,
  [], ◌∷◌, leb, arith, false,
}
use francois_gingras_master.Tasks.SampleSortTask.{num_rand, random_at_most}

-- What is not rejected is a multiple of the bins' size.
accepted : (max : ℕ) → num_rand - num_rand % (max + 1) ≡ (max + 1) * (num_rand / (max + 1))
accepted max = omega (arith, div-add-mod num_rand (max + 1))

bin_size_positive : (max : ℕ) → max < num_rand → 0 < num_rand / (max + 1)
bin_size_positive max h =
    (le-div_iff_mul-le {k = max + 1} {x = 1} {y = num_rand} (omega arith)).1 (omega arith)

drawn : (a b : ℕ) (l k : List ℕ) → ◌≡◌ {A = Option (ℕ × List ℕ)} (some (a, l)) (some (b, k)) → a ≡ b
drawn a b l k e = cc

-- For max below 2^31, the value that is given lies between 0 and max.
pub random_at_most-le :
    (max r : ℕ) (draws rest : List ℕ)
    → max < num_rand
    → random_at_most max draws ≡ some (r, rest)
    → r ≤ max
unfolding random_at_most
random_at_most-le max r [] rest h e = absurd (cc)
random_at_most-le max r (x ∷ draws) rest h e =
    elim (Bool-cases (leb (num_rand - num_rand % (max + 1)) x)) [
      | inl big ↦ random_at_most-le max r draws rest h (rw big at e)
      | inr small ↦
          let value = drawn (x / (num_rand / (max + 1))) r draws rest (rw small at e) in
          let below : x < (max + 1) * (num_rand / (max + 1)) = ground (arith, accepted max) in
          let less = (div-lt_iff_lt-mul (bin_size_positive max h)).1 below in
          omega (arith, less, value)
    ]

-- For max below 2^31, every value up to max has a bin of bin_size draws, each of which gives that value at once.
pub random_at_most-bin :
    (max r j : ℕ) (draws : List ℕ)
    → max < num_rand
    → r ≤ max
    → j < num_rand / (max + 1)
    → random_at_most max ((r * (num_rand / (max + 1)) + j) ∷ draws) ≡ some (r, draws)
unfolding random_at_most
random_at_most-bin max r j draws h le lt =
    let bin : ℕ = num_rand / (max + 1) in
    let within : suc r * bin ≤ (max + 1) * bin = mul-le-mul_right bin (omega arith) in
    let all = accepted max in
    let one_more : suc r * bin ≡ r * bin + bin = omega arith in
    let small : leb (num_rand - num_rand % (max + 1)) (r * bin + j) ≡ false = ground arith in
    let value : (r * bin + j) / bin ≡ r =
      mul-add-div_right (bin_size_positive max h) r j
      ∙ ap (λ q. r + q) (div-eq_of_lt lt)
      ∙ omega arith in
    rw (small, value)
