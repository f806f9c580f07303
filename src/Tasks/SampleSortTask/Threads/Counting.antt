-- ===== src/Tasks/SampleSortTask/Threads/Counting.antt =====
-- How many steps the threads of a sample sort have when they start.
use francois_gingras_master.Common.{
  ℕ, zero, suc, ◌+◌, ◌*◌, ◌≡◌, refl, sym, ap, some, List, [], ◌∷◌, length, get_elem?, arith,
}
use francois_gingras_master.Tasks.BucketTask.Receive.{Bucket}
use francois_gingras_master.Tasks.SampleSortTask.Threads.{
  Post, the_topology, RootStep, BucketThread, bucket_start, posts_from, collects, root_start,
  bucket_threads,
}
use francois_gingras_master.Tasks.SampleSortTask.Threads.Picks.{steps_left}

pub length-posts_from :
    (p : Post) (x n : ℕ) (rest : List RootStep) → length (posts_from p x n rest) ≡ n + length rest
unfolding posts_from
length-posts_from p x zero rest = omega arith
length-posts_from p x (suc n) rest = omega (arith, length-posts_from p (x + 1) n rest)

pub length-collects :
    (n : ℕ) (rest : List RootStep) → length (collects n rest) ≡ n + n + length rest
unfolding collects
length-collects zero rest = omega arith
length-collects (suc n) rest = omega (arith, length-collects n rest)

-- The root has nine steps for each bucket, and one more.
pub length-root_start : (k : ℕ) → length (root_start k) ≡ 9 * k + 1
unfolding root_start
length-root_start k =
    let end = collects k [] in
    let columns = posts_from Post.the_column 0 k end in
    let replies = collects k columns in
    let signals = posts_from Post.the_signal 0 k replies in
    let splitters = posts_from Post.the_splitters 0 k (RootStep.clears ∷ signals) in
    let references = posts_from Post.the_reference 0 k splitters in
    omega (
      arith,
      length-posts_from the_topology 0 k references,
      length-posts_from Post.the_reference 0 k splitters,
      length-posts_from Post.the_splitters 0 k (RootStep.clears ∷ signals),
      length-posts_from Post.the_signal 0 k replies,
      length-collects k columns,
      length-posts_from Post.the_column 0 k end,
      length-collects k [],
    )

-- A bucket has twelve.
pub steps_left-bucket_threads :
    (memory : Bucket) (ids : List ℕ) → steps_left (bucket_threads memory ids) ≡ 12 * length ids
unfolding steps_left bucket_threads
steps_left-bucket_threads memory [] = refl
steps_left-bucket_threads memory (id ∷ ids) = omega (arith, steps_left-bucket_threads memory ids)

-- A new bucket's thread.
pub new_thread :
    (memory : Bucket) (ids : List ℕ) (i : ℕ) (t : BucketThread)
    → get_elem? (bucket_threads memory ids) i ≡ some t
    → (get_elem? ids i ≡ some t.state.task_id) × (t.todo ≡ bucket_start)
unfolding bucket_threads
new_thread memory [] i t e = absurd (cc)
new_thread memory (id ∷ ids) zero t e =
    let is : record { state = record memory { task_id = id }; todo = bucket_start } ≡ t = cc in
    (ap (λ u. some u.state.task_id) is, ap (λ u. u.todo) (sym is))
new_thread memory (id ∷ ids) (suc i) t e = new_thread memory ids i t e
