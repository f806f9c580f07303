-- ===== src/System/Waking.antt =====
-- System.c: message_notify, which puts a task to sleep, and loop_wait_signal, the thread of the
-- process with the system that wakes the sleepers.
pub mod Live
use francois_gingras_master.Common.{
  ℕ, zero, suc, ◌+◌, ◌≤◌, ◌<◌, ◌≡◌, ◌↔◌, ◌⊎◌, refl, ap, sym, ◌∙◌, ◌≢◌, Bool, true, false,
  Bool-cases, inl, inr, Option, none, some, List, [], ◌∷◌, ◌++◌, length, get_elem?, get_elem?-some,
  Outcome, done, fault, or_fault, ◌>>=◌, ltb, ◌==◌, ==_self, if◌then◌else◌, arith,
}
use francois_gingras_master.Queue.{Queue}
use francois_gingras_master.Queue.Enqueue.{has_room}
use francois_gingras_master.Messages.Message.{Message, header}
use francois_gingras_master.Messages.Message.Law.{IsReady, after}
use francois_gingras_master.System.{
  Shared, Process, update, with_segment, send, message_immediate, empty_at, max_task,
}
use francois_gingras_master.System.Delivery.{
  Carries, IsMapped, send-Carries, message_immediate-Carries, empty_at-Carries,
  segments-with_segment_self,
}

-- `asleep t` says that task t waits for its condition variable `sleepers[t]`.
pub record Sleepers : Type 0 where
  pub shutdown_signal : ℕ
  pub asleep : ℕ → Bool

-- A task with no message goes to sleep. The test and the sleep are not one step: `notify_test` is the
-- test, `go_to_sleep` the rest.
unfoldable pub notify_test : Shared → Process → ℕ → ℕ → Outcome (Bool × Process)
notify_test s p at t = message_immediate s p at t

unfoldable pub go_to_sleep : Sleepers → ℕ → Bool → Sleepers
go_to_sleep w t empty = if empty then record w { asleep = update w.asleep t true } else w

-- A signal wakes the task if it sleeps.
unfoldable pub wake_unless : Bool → Sleepers → ℕ → Sleepers
wake_unless empty w i = if empty then w else record w { asleep = update w.asleep i false }

-- The loop over the tasks from i on. `p` is the process with the system; an entry behind its table is a fault.
unfoldable pub signal_from : Shared → Process → ℕ → ℕ → Sleepers → Outcome Sleepers
unfolding wake_unless empty_at
signal_from s p i zero w = done w
signal_from s p i (suc n) w = do
  entry ← or_fault (get_elem? p.task_table i)
  signal_from s p (i + 1) n (wake_unless (empty_at (s.segments i) entry) w i)

-- One round of the loop, for the ids that are given out.
unfoldable pub signal_round : Shared → Process → Sleepers → Outcome Sleepers
signal_round s p w = signal_from s p 0 s.next_task_id w

-- `n` rounds, the first of them with the state of the queues at the time. The loop ends on shutdown.
unfoldable pub loop_wait_signal : List Shared → Process → Sleepers → Outcome Sleepers
loop_wait_signal [] p w = done w
loop_wait_signal (s ∷ states) p w =
    if ltb 0 w.shutdown_signal
    then done w
    else (signal_round s p w >>= λ w'. loop_wait_signal states p w')

-- What a round makes of a task's sleep.
abbrev pub still : Shared → Sleepers → ℕ → Option ℕ → Bool
still s w t entry = if empty_at (s.segments t) entry then w.asleep t else false

wake_unless_self :
    (w : Sleepers) (i : ℕ) (b : Bool)
    → (wake_unless b w i).asleep i ≡ (if b then w.asleep i else false)
unfolding wake_unless
wake_unless_self w i true = refl
wake_unless_self w i false = rw (==_self i) refl

wake_unless_other :
    (w : Sleepers) (i t : ℕ) (b : Bool) → i ≢ t → (wake_unless b w i).asleep t ≡ w.asleep t
unfolding wake_unless
wake_unless_other w i t true other = refl
wake_unless_other w i t false other = let no : (t == i) ≡ false = ground arith in rw no refl

wake_unless_shutdown :
    (w : Sleepers) (i : ℕ) (b : Bool) → (wake_unless b w i).shutdown_signal ≡ w.shutdown_signal
unfolding wake_unless
wake_unless_shutdown w i true = refl
wake_unless_shutdown w i false = refl

-- The loop ends with every task from i to i + n looked at, and no other.
pub record Looked (s : Shared) (p : Process) (i n : ℕ) (w w' : Sleepers) : Type 0 where
  pub same_signal : w'.shutdown_signal ≡ w.shutdown_signal
  pub within :
      (t : ℕ) (entry : Option ℕ)
      → get_elem? p.task_table t ≡ some entry
      → i ≤ t
      → t < i + n
      → w'.asleep t ≡ still s w t entry
  pub outside : (t : ℕ) → (t < i) ⊎ (i + n ≤ t) → w'.asleep t ≡ w.asleep t

pub signal_from-Looked :
    (s : Shared) (p : Process) (i n : ℕ) (w : Sleepers)
    → i + n ≤ length p.task_table
    → (w' : Sleepers) × (signal_from s p i n w ≡ done w') × Looked s p i n w w'
unfolding signal_from
signal_from-Looked s p i zero w h = (
  w,
  refl,
  record {
    same_signal = refl;
    within = λ t entry e le lt. absurd (omega arith);
    outside = λ t out. refl;
  },
)
signal_from-Looked s p i (suc n) w h =
    let (entry, e) = get_elem?-some p.task_table i (omega arith) in
    let next = wake_unless (empty_at (s.segments i) entry) w i in
    let (w', run, l) = signal_from-Looked s p (i + 1) n next (omega arith) in
    (
      w',
      rw e run,
      record {
        same_signal = l.same_signal ∙ wake_unless_shutdown w i (empty_at (s.segments i) entry);
        within = λ t entry' e' le lt. elim (Bool-cases (t == i)) [
          | inl same ↦
              let at : t ≡ i = ground arith in
              let agree : entry' ≡ entry = cc in
              rw (at, agree)
                (l.outside i (inl (omega arith))
                  ∙ wake_unless_self w i (empty_at (s.segments i) entry))
          | inr apart ↦
              let other : i ≢ t = λ x. ground arith in
              l.within t entry' e' (ground arith) (omega arith)
              ∙ rw (wake_unless_other w i t (empty_at (s.segments i) entry) other) refl
        ];
        outside = λ t out.
            let other : i ≢ t =
              λ x. elim out [ inl a ↦ absurd (omega arith) | inr b ↦ absurd (omega arith) ] in
            let still_out : (t < i + 1) ⊎ (i + 1 + n ≤ t) = elim out [
              | inl a ↦ inl (omega arith)
              | inr b ↦ inr (omega arith)
            ] in
            l.outside t still_out ∙ wake_unless_other w i t (empty_at (s.segments i) entry) other;
      },
    )
