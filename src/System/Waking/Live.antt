-- ===== src/System/Waking/Live.antt =====
-- Whom a round of loop_wait_signal wakes.
use francois_gingras_master.Common.{
  ℕ, zero, suc, ◌+◌, ◌≤◌, ◌<◌, ◌≡◌, ◌↔◌, refl, sym, ◌∙◌, Bool, true, false, Bool-cases, inl, inr,
  none, some, List, [], ◌∷◌, length, get_elem?, get_elem?-none, get_elem?-some, ltb, done, fault,
  ==_self, arith,
}
use mathlib.Core.Bool.{false≢true}
use francois_gingras_master.Queue.Enqueue.{has_room}
use francois_gingras_master.Messages.Message.{Message, header}
use francois_gingras_master.Messages.Message.Law.{IsReady, after}
use francois_gingras_master.System.{Shared, Process, with_segment, send, empty_at}
use francois_gingras_master.System.Delivery.{
  Carries, IsMapped, send-Carries, message_immediate-Carries, empty_at-Carries,
  segments-with_segment_self,
}
use francois_gingras_master.System.Waking.{
  Sleepers, notify_test, go_to_sleep, signal_from, signal_round, signal_from-Looked,
}

-- With at most 100 ids given out, a round of the host's loop succeeds. A task that has an id and whose queue the host has
-- mapped sleeps after it exactly if it slept before and no message is on its way to it; one whose
-- queue the host has not mapped is awake; a task with no id is left alone.
pub signal_round-wakes :
    (s : Shared) (p : Process) (w : Sleepers)
    → s.next_task_id ≤ length p.task_table
    → (w' : Sleepers) × (signal_round s p w ≡ done w')
      × ((t base : ℕ) (ns : List Message)
          → t < s.next_task_id
          → IsMapped p t base
          → Carries (s.segments t) ns
          → (w'.asleep t ≡ true) ↔ ((w.asleep t ≡ true) × (ns ≡ [])))
      × ((t : ℕ) → t < s.next_task_id → get_elem? p.task_table t ≡ some none → w'.asleep t ≡ false)
      × ((t : ℕ) → s.next_task_id ≤ t → w'.asleep t ≡ w.asleep t)
unfolding signal_round empty_at
signal_round-wakes s p w h =
    let (w', run, l) = signal_from-Looked s p 0 s.next_task_id w (omega arith) in
    (
      w',
      run,
      λ t base ns lt mapped k.
          let now = l.within t (some base) mapped (omega arith) (omega arith) in
          let i = empty_at-Carries (s.segments t) base ns k in
          elim (Bool-cases (empty_at (s.segments t) (some base))) [
            | inl empty ↦
                let kept : w'.asleep t ≡ w.asleep t = now ∙ rw empty refl in
                (λ e. (sym kept ∙ e, i.0 empty), λ e. kept ∙ e.0)
            | inr full ↦
                let woken : w'.asleep t ≡ false = now ∙ rw full refl in
                (
                  λ e. absurd (false≢true (sym woken ∙ e)),
                  λ e. absurd (false≢true (sym full ∙ i.1 e.1)),
                )
          ],
      λ t lt unmapped. l.within t none unmapped (omega arith) (omega arith),
      λ t le. l.outside t (inr (omega arith)),
    )

signal_from_fault :
    (s : Shared) (p : Process) (n i : ℕ) (w : Sleepers)
    → i ≤ length p.task_table
    → length p.task_table < i + n
    → signal_from s p i n w ≡ fault
unfolding signal_from
signal_from_fault s p zero i w le h = absurd (omega arith)
signal_from_fault s p (suc n) i w le h = elim (Bool-cases (ltb i (length p.task_table))) [
  | inl within ↦
      let below : i < length p.task_table = ground arith in
      let (entry, e) = get_elem?-some p.task_table i below in
      rw e (signal_from_fault s p n (i + 1) _ (omega arith) (omega arith))
  | inr behind ↦ rw (get_elem?-none p.task_table i (ground arith)) refl
]

-- With more ids given out than the table has entries, the loop reads behind the table, whoever sleeps.
pub signal_round_fault :
    (s : Shared) (p : Process) (w : Sleepers)
    → length p.task_table < s.next_task_id
    → signal_round s p w ≡ fault
unfolding signal_round
signal_round_fault s p w h = signal_from_fault s p s.next_task_id 0 w (omega arith) (omega arith)

-- No wakeup is lost: a task with an id finds its queue empty, another process sends it a message
-- before it has gone to sleep, and then it goes to sleep. If all three processes have mapped the
-- queue, the message is ready and has room, and no more ids are given out than the host's table
-- has entries, then all calls succeed and the task sleeps until the next round, which wakes it.
pub notify-send-signal_round :
    (s : Shared) (own sender host : Process) (w : Sleepers) (msg : Message)
    (t at at' base base' base'' : ℕ)
    → IsMapped own t base
    → IsMapped sender t base'
    → IsMapped host t base''
    → s.next_task_id ≤ length host.task_table
    → t < s.next_task_id
    → Carries (s.segments t) []
    → IsReady msg
    → has_room (s.segments t) (header msg).msg_size ≡ true
    → (empty : Bool) × (s' : Shared) × (w' : Sleepers) × (notify_test s own at t
        ≡ done (empty, own))
      × (send s sender at' msg t ≡ done (true, after msg, s', sender))
      × ((go_to_sleep w t empty).asleep t ≡ true)
      × (signal_round s' host (go_to_sleep w t empty) ≡ done w')
      × (w'.asleep t ≡ false)
unfolding notify_test go_to_sleep
notify-send-signal_round s own sender host w msg t at at' base base' base'' m m' m'' h lt k r room =
    let (empty, tested, i) = message_immediate-Carries s own at base t [] m k in
    let none_there : empty ≡ true = i.1 refl in
    let asleep : (go_to_sleep w t empty).asleep t ≡ true = rw (none_there, ==_self t) refl in
    elim (send-Carries s sender at' base' msg t [] m' k r) [
      | inl (_, q, sent, k') ↦
          let next = with_segment s t q in
          let (w', run, live, _, _) = signal_round-wakes next host (go_to_sleep w t empty) h in
          let l = live t base'' (msg ∷ []) lt m'' (rw (segments-with_segment_self s t q) k') in
          (
            empty,
            next,
            w',
            tested,
            sent,
            asleep,
            run,
            elim (Bool-cases (w'.asleep t)) [
              | inl sleeps ↦ let gone : msg ∷ [] ≡ [] = (l.0 sleeps).1 in absurd (cc)
              | inr wakes ↦ wakes
            ],
          )
      | inr (full, _) ↦ absurd (false≢true (sym full ∙ room))
    ]
