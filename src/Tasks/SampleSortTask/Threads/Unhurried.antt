-- ===== src/Tasks/SampleSortTask/Threads/Unhurried.antt =====
-- Schedules that do not interrupt the root: whenever it has a turn, it has many.
use mathlib.Core.Path.{subst}
use francois_gingras_master.Messages.Message.{Message}
use francois_gingras_master.Messages.Header.{Heap}
use francois_gingras_master.System.{Shared, Process, send}
use francois_gingras_master.Common.{
  Bool, or_fault, ℕ, ◌≡◌, inl, inr, refl, Bool-cases, some, none, Option, List, [], ◌∷◌, ◌++◌,
  replicate, get_elem?, Outcome, done, ◌>>=◌,
}
use francois_gingras_master.Tasks.Dispatch.{Received, waits, served}
use francois_gingras_master.Tasks.BucketTask.Receive.{Bucket}
use francois_gingras_master.Tasks.SampleSortTask.Receive.{SampleSort}
use francois_gingras_master.Tasks.SampleSortTask.Threads.{
  Machine, Post, BucketStep, BucketThread, RootStep, posts, clears, Threads, Turn, bucket, dangles,
  build_post, keep_sent, root_post, root_received, root_step, bucket_received, bucket_step,
  bucket_turn,
}

-- The root's turns become n turns each.
unfoldable pub unhurried : ℕ → List Turn → List Turn
unhurried n [] = []
unhurried n (Turn.root ∷ us) = replicate n Turn.root ++ unhurried n us
unhurried n (bucket i ∷ us) = bucket i ∷ unhurried n us

-- Whatever comes out satisfies Q.
abbrev EndsIn : (Threads → Type 0) → Outcome Threads → Type 0
EndsIn Q o = (c1 : Threads) → o ≡ done c1 → Q c1

EndsIn-bind :
    {A : Type 0}
    → (Q : Threads → Type 0) (f : A → Outcome Threads) → ((a : A) → EndsIn Q (f a))
    → (o : Outcome A) → EndsIn Q (o >>= f)
EndsIn-bind Q f h (done a) c1 e = h a c1 e
EndsIn-bind Q f h Outcome.fault c1 e = cc
EndsIn-bind Q f h Outcome.exits c1 e = cc

EndsIn-done : (Q : Threads → Type 0) (c : Threads) → Q c → EndsIn Q (done c)
EndsIn-done Q c q c1 e = let same : c ≡ c1 = cc in subst Q same q

module _ (m : Machine) where
  root_post-buckets :
      (p : Post) (i : ℕ) (rest : List RootStep) (c : Threads)
      → EndsIn (λ c1. c1.buckets ≡ c.buckets) (root_post m p i rest c)
  unfolding root_post
  root_post-buckets p i rest c =
      EndsIn-bind {A = Message × Heap} (λ c1. c1.buckets ≡ c.buckets) _
        (λ built.
          EndsIn-bind {A = ℕ} (λ c1. c1.buckets ≡ c.buckets) _
            (λ id.
              EndsIn-bind {A = Bool × Message × Shared × Process} (λ c1. c1.buckets ≡ c.buckets) _
                (λ sent.
                  EndsIn-done (λ c1. c1.buckets ≡ c.buckets)
                    (record c {
                      heap = built.1;
                      shared = sent.2;
                      process = sent.3;
                      root = keep_sent m p (sent.1) (record (c.root) { todo = rest });
                    })
                    refl)
                (send c.shared c.process (m.at id) (built.0) id))
            (or_fault (get_elem? c.root.buckets i)))
        (build_post m p i c.root c.heap)

  -- A turn of the root leaves the buckets as they are.
  pub root_step-buckets :
      (todo : List RootStep) (c : Threads)
      → EndsIn (λ c1. c1.buckets ≡ c.buckets) (root_step m todo c)
  unfolding root_step root_received dangles
  root_step-buckets [] c = EndsIn-done (λ c1. c1.buckets ≡ c.buckets) c refl
  root_step-buckets (posts p i ∷ rest) c = elim (Bool-cases (dangles p c.buckets)) [
    | inl over ↦ λ c1 e. let clash : Outcome.fault ≡ done c1 = rw over at e in cc
    | inr safe ↦ λ c1 e. root_post-buckets p i rest c c1 (rw safe at e)
  ]
  root_step-buckets (clears ∷ rest) c = EndsIn-done (λ c1. c1.buckets ≡ c.buckets) _ refl
  root_step-buckets (RootStep.notifies ∷ rest) c =
      EndsIn-bind (λ c1. c1.buckets ≡ c.buckets) _
        (λ r. EndsIn-done (λ c1. c1.buckets ≡ c.buckets) _ refl) _
  root_step-buckets (RootStep.receives ∷ rest) c =
      EndsIn-bind (λ c1. c1.buckets ≡ c.buckets) _
        (λ r. EndsIn-done (λ c1. c1.buckets ≡ c.buckets) _ (kept r)) _
    where
      kept : (r : Received SampleSort) → (root_received m c rest r).buckets ≡ c.buckets
      kept (waits p') = refl
      kept (served this s' p') = refl

  -- A turn of a bucket leaves the root as it is.
  bucket_step-root :
      (todo : List BucketStep) (this : Bucket) (i : ℕ) (c : Threads)
      → EndsIn (λ c1. c1.root ≡ c.root) (bucket_step m todo this i c)
  unfolding bucket_step bucket_received
  bucket_step-root [] this i c = EndsIn-done (λ c1. c1.root ≡ c.root) c refl
  bucket_step-root (BucketStep.notifies ∷ rest) this i c =
      EndsIn-bind (λ c1. c1.root ≡ c.root) _ (λ r. EndsIn-done (λ c1. c1.root ≡ c.root) _ refl) _
  bucket_step-root (BucketStep.receives ∷ rest) this i c =
      EndsIn-bind (λ c1. c1.root ≡ c.root) _ (λ r. EndsIn-done (λ c1. c1.root ≡ c.root) _ (kept r))
        _
    where
      kept : (r : Received Bucket) → (bucket_received m c i rest r).root ≡ c.root
      kept (waits p') = refl
      kept (served this' s' p') = refl
  bucket_step-root (BucketStep.sends_sub_arrays ∷ rest) this i c =
      EndsIn-bind (λ c1. c1.root ≡ c.root) _ (λ r. EndsIn-done (λ c1. c1.root ≡ c.root) _ refl) _
  bucket_step-root (BucketStep.finishes ∷ rest) this i c =
      EndsIn-bind (λ c1. c1.root ≡ c.root) _ (λ r. EndsIn-done (λ c1. c1.root ≡ c.root) _ refl) _

  pub bucket_turn-root :
      (b : Option BucketThread) (i : ℕ) (c : Threads)
      → EndsIn (λ c1. c1.root ≡ c.root) (bucket_turn m b i c)
  unfolding bucket_turn
  bucket_turn-root none i c = EndsIn-done (λ c1. c1.root ≡ c.root) c refl
  bucket_turn-root (some b) i c = bucket_step-root b.todo b.state i c
