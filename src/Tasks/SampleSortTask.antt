-- ===== src/Tasks/SampleSortTask.antt =====
-- TaskSystem/src/Tasks/SampleSortTask/SampleSortTask.c: the root of a sample sort. It draws the
-- splitters, hands each bucket its part of the data, and hands the sub-arrays round.
pub mod Receive
pub mod Rounds
pub mod RoundOne
pub mod RoundTwo
pub mod RoundThree
pub mod Merge
pub mod Correct
pub mod Random
pub mod Threads
use francois_gingras_master.Common.{
  ℕ, zero, suc, ◌+◌, ◌-◌, ◌*◌, ◌/◌, ◌%◌, ◌^◌, Option, none, some, List, [], ◌∷◌, ◌++◌, take, drop,
  length, get_elem?, Outcome, done, fault, or_fault, ◌>>=◌, leb, ◌==◌, if◌then◌else◌, ℤ, pos,
}
use francois_gingras_master.Tasks.Qsort.{Qsort, cmpfunc}
use francois_gingras_master.Tasks.BucketTask.{sub_arrays, rebuild, final_sort}

-- RAND_MAX + 1 of the C library.
abbrev pub num_rand : ℕ
num_rand = 2 ^ 31

-- random_at_most: `draws` are the values that random() gives, one after the other; `none` if all of
-- them are rejected. The rest is what is left to draw.
unfoldable pub random_at_most : ℕ → List ℕ → Option (ℕ × List ℕ)
random_at_most max [] = none
random_at_most max (x ∷ draws) =
    let num_bins = max + 1 in
    let bin_size = num_rand / num_bins in
    let defect = num_rand % num_bins in
    let again = random_at_most max draws in
    if leb (num_rand - defect) x then again else some (x / bin_size, draws)

abbrev pub sample_size : ℕ
sample_size = 1500

-- 1) The values at the positions that were drawn.
unfoldable pub get_samples : List ℤ → List ℕ → Outcome (List ℤ)
get_samples values [] = done []
get_samples values (at ∷ ats) = do
  sample ← or_fault (get_elem? values at)
  samples ← get_samples values ats
  done (sample ∷ samples)

-- 3) `n` more splitters from index i on, and the last one, which is not important.
pub splitters_from : List ℤ → ℕ → ℕ → ℕ → Outcome (List ℤ)
splitters_from samples step i zero = done (pos 1000000 ∷ [])
splitters_from samples step i (suc n) = do
  s ← or_fault (get_elem? samples ((i + 1) * step))
  rest ← splitters_from samples step (i + 1) n
  done (s ∷ rest)

-- A division by K = 0 is a fault.
unfoldable pub get_splitters : Qsort → ℕ → List ℤ → Outcome (List ℤ)
unfolding splitters_from
get_splitters lib zero samples = fault
get_splitters lib (suc k) samples =
    splitters_from (lib.qsort cmpfunc samples) (sample_size / suc k) 0 k

-- The parts of the data: size_per_task values each, and the rest for the last bucket.
unfoldable pub parts : ℕ → ℕ → List ℤ → List (List ℤ)
parts zero size_per_task values = []
parts (suc zero) size_per_task values = values ∷ []
parts (suc (suc k)) size_per_task values =
    take size_per_task values ∷ parts (suc k) size_per_task (drop size_per_task values)

-- What a bucket sends back: counts and sub-arrays.
abbrev pub SubArrays : Type 0
SubArrays = List ℕ × List (List ℤ)

unfoldable pub bucket_replies : ℤ → ℕ → List ℤ → List (List ℤ) → Outcome (List SubArrays)
bucket_replies junk k splitters [] = done []
bucket_replies junk k splitters (part ∷ rest) = do
  reply ← sub_arrays junk k splitters part
  replies ← bucket_replies junk k splitters rest
  done (reply ∷ replies)

-- Round 3: the counts and the sub-arrays number ki of all replies, in the order of their arrival.
unfoldable pub column : ℕ → List SubArrays → Outcome SubArrays
column ki [] = done ([], [])
column ki ((counts, values) ∷ replies) = do
  c ← or_fault (get_elem? counts ki)
  v ← or_fault (get_elem? values ki)
  (cs, vs) ← column ki replies
  done (c ∷ cs, v ∷ vs)

-- Bucket ki with its column: rebuilt and sorted.
unfoldable pub bucket_output : Qsort → ℕ → List SubArrays → Outcome (List ℤ)
bucket_output lib ki replies = do
  (counts, values) ← column ki replies
  rebuilt ← rebuild counts values
  done (final_sort lib rebuilt)

unfoldable pub outputs : Qsort → ℕ → ℕ → List SubArrays → Outcome (List (List ℤ))
outputs lib ki zero replies = done []
outputs lib ki (suc n) replies = do
  out ← bucket_output lib ki replies
  rest ← outputs lib (ki + 1) n replies
  done (out ∷ rest)

-- The whole run with K buckets: `ats` are the positions drawn, `arrive` the order in which the
-- buckets' replies arrive.
unfoldable pub sample_sort :
    Qsort → (List SubArrays → List SubArrays) → ℤ → ℕ → List ℕ → List ℤ → Outcome (List (List ℤ))
sample_sort lib arrive junk k ats values = do
  samples ← get_samples values ats
  splitters ← get_splitters lib k samples
  replies ← bucket_replies junk k splitters (parts k (length values / k) values)
  outputs lib 0 k (arrive replies)
