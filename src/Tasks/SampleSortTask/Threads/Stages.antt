-- ===== src/Tasks/SampleSortTask/Threads/Stages.antt =====
-- How far a bucket and the root of a sample sort are, and what the root still owes a bucket.
use francois_gingras_master.Common.{
  ℕ, ◌≤◌, ◌<◌, ◌≡◌, ◌⊎◌, Bool, true, false, List, [], ◌∷◌, drop, length, leb, if◌then◌else◌,
}
use francois_gingras_master.Tasks.SampleSortTask.Threads.{
  BucketStep, notifies, BucketThread, bucket_start, Post, the_topology, the_reference,
  the_splitters, the_signal, the_column,
}

-- How far a bucket is.
pub data Stage : Type 0 where
  fresh informed referred split signalled replied rebuilt ended : Stage

-- What it does from there on, but for a message_notify.
abbrev pub program : Stage → List BucketStep
program fresh = drop 1 bucket_start
program informed = drop 3 bucket_start
program referred = drop 5 bucket_start
program split = drop 7 bucket_start
program signalled = drop 8 bucket_start
program replied = drop 10 bucket_start
program rebuilt = drop 11 bucket_start
program ended = []

-- The stages that begin with message_notify.
abbrev pub awaits : Stage → Bool
awaits fresh = true
awaits informed = true
awaits referred = true
awaits split = true
awaits replied = true
awaits _ = false

abbrev pub At : Stage → List BucketStep → Type 0
At s todo = (todo ≡ program s) ⊎ ((awaits s ≡ true) × (todo ≡ notifies ∷ program s))

-- What it has not received yet.
abbrev pub expected : Stage → List Post
expected fresh = the_topology ∷ the_reference ∷ the_splitters ∷ the_signal ∷ the_column ∷ []
expected informed = the_reference ∷ the_splitters ∷ the_signal ∷ the_column ∷ []
expected referred = the_splitters ∷ the_signal ∷ the_column ∷ []
expected split = the_signal ∷ the_column ∷ []
expected signalled = the_column ∷ []
expected replied = the_column ∷ []
expected rebuilt = []
expected ended = []

-- Whether a thread has sent its sub-arrays, and whether it has ended.
abbrev pub has_replied : BucketThread → Bool
has_replied t = leb (length t.todo) 3

abbrev pub has_ended : BucketThread → Bool
has_ended t = leb (length t.todo) 0

-- The entries of a list that belong to the threads of some kind.
unfoldable pub pick_where {ℓ} :
    {A : Type ℓ} → (BucketThread → Bool) → List BucketThread → List A → List A
pick_where p [] l = []
pick_where p (t ∷ ts) [] = []
pick_where p (t ∷ ts) (a ∷ l) = let others = pick_where p ts l in if p t then a ∷ others else others

-- How far the root is: at bucket x of a loop of posts with n left, before it clears the array of
-- replies, or with n messages left to wait for.
pub data RootStage : Type 0 where
  posting : Post → ℕ → ℕ → RootStage
  clearing : RootStage
  collecting : ℕ → RootStage
  ending : ℕ → RootStage

-- What is owed to a bucket that this post has not reached, and to one that it has.
abbrev pub owed_from : Post → List Post
owed_from the_topology = expected fresh
owed_from the_reference = expected informed
owed_from the_splitters = expected referred
owed_from the_signal = expected split
owed_from the_column = expected replied

abbrev pub owed_after : Post → List Post
owed_after the_topology = expected informed
owed_after the_reference = expected referred
owed_after the_splitters = expected split
owed_after the_signal = expected replied
owed_after the_column = []

abbrev pub Owed : RootStage → ℕ → List Post → Type 0
Owed (posting p x n) i future = (i < x → future ≡ owed_after p) × (x ≤ i → future ≡ owed_from p)
Owed clearing i future = future ≡ owed_from the_signal
Owed (collecting n) i future = future ≡ owed_from the_column
Owed (ending n) i future = future ≡ []
