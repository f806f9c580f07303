-- ===== src/Tasks/SampleSortTask/Threads/Collecting.antt =====
-- What the root gathers: the replies of the second round, and the `done` messages of the third.
use mathlib.Core.Path.{subst}
use francois_gingras_master.Common.{
  ℕ, suc, ◌+◌, ◌*◌, ◌≤◌, ◌≡◌, ◌⊎◌, inl, inr, refl, sym, ap, ap₂, ◌∙◌, some, none, List, [], ◌∷◌,
  ◌++◌, map, replicate, append_assoc, length, length-append, done, arith,
}
use francois_gingras_master.Messages.DoneMsg.{DoneMsg}
use francois_gingras_master.Messages.RefTwoDimIntArrayMsg.{RefTwoDimIntArrayMsg}
use francois_gingras_master.Messages.Message.{Message, ref_two_dim, signal}
use francois_gingras_master.System.Delivery.Lane.{Bears}
use francois_gingras_master.Tasks.SampleSortTask.Receive.{
  SampleSort, reaction, handle_sub_array, handle_done, clear_replies,
}
use francois_gingras_master.Tasks.SampleSortTask.Rounds.{
  AllRefer, AreReplies, filled, handle_sub_array-filled,
}
use francois_gingras_master.Tasks.SampleSortTask.Threads.{
  Machine, the_topology, the_signal, RootStep, Threads, Turn, posts_from, collects, step, root_step,
}
use francois_gingras_master.Tasks.SampleSortTask.Threads.Plan.{
  RootInv, early, late, Slots, AreDone, Inv, root_todo, RootAt, IsStage, IsTopology,
}
use francois_gingras_master.Tasks.SampleSortTask.Threads.Setting.{Plan}
use francois_gingras_master.Tasks.SampleSortTask.Threads.Stages.{
  RootStage, posting, clearing, collecting, ending, Owed, pick_where, has_ended,
}
use francois_gingras_master.Tasks.SampleSortTask.Threads.Change.{Goes}
use francois_gingras_master.Tasks.SampleSortTask.Threads.Waits.{
  change_root, root_notifies, root_receive_waits, root_takes,
}

-- The root's state as its array shows it.
shows :
    (st : SampleSort) (ms : List RefTwoDimIntArrayMsg) (n : ℕ)
    → st.buckets_values_arr ≡ map some ms ++ replicate n none
    → st.buckets_values_arr_count ≡ length ms
    → filled st ms n ≡ st
shows st ms n e f =
    sym (ap₂ (λ a k. record st { buckets_values_arr = a; buckets_values_arr_count = k }) e f)

module _ (m : Machine) (P : Plan) where
  -- At another stage the size of the topology no longer matters.
  pub topology_restaged :
      (stage stage' : RootStage) (msg : Message)
      → ((y k : ℕ) → stage' ≡ posting the_topology y k → ⊥)
      → IsTopology m P stage msg
      → IsTopology m P stage' msg
  topology_restaged stage stage' msg other i = record {
    ready = i.ready;
    brings = i.brings;
    sized = λ y k e. absurd (other y k e);
  }

  pub clears-Goes :
      (c : Threads) (inv : Inv m P c)
      → inv.stage ≡ clearing
      → RootAt m P clearing c.root.todo
      → RootInv m P clearing
          (inv.rs)
          c.heap
          c.root.state
          (c.shared.segments P.root_id)
          (length (pick_where has_ended c.buckets P.refs))
      → Goes m P c (step m Turn.root c)
  unfolding step root_step clear_replies posts_from collects
  clears-Goes c inv at (inr (after, e, f)) gathers = absurd (cc)
  clears-Goes c inv at (inl todo) (late got there used full refer arr dones bears bound f) =
      absurd f
  clears-Goes c inv at (inl todo) (early got there used refer tagged bears bound none_got) =
      let k = length c.root.buckets in
      let size : k ≡ suc (P.k) = ap length (inv.known_ids) ∙ P.many in
      let rest = root_todo m P (posting the_signal 0 (suc (P.k))) in
      let long : length c.root.todo ≡ suc (length rest) = ap length todo in
      (
        record c { root = record (c.root) { state = clear_replies k c.root.state; todo = rest } },
        ap (λ l. root_step m l c) todo,
        change_root m P c inv c.shared (clear_replies k c.root.state) rest
            (posting the_signal 0 (suc (P.k))) refl (inl refl) (omega arith)
            (topology_restaged (inv.stage) (posting the_signal 0 (suc (P.k))) c.root.topo_msg
              (λ y j e. cc) (inv.topo))
            (λ i lt f o. (λ h. absurd (omega arith), λ h. subst (λ s. Owed s i f) at o))
            (λ id o. refl)
            (early got there used refer tagged bears bound
              (none_got, (rw (size, none_got) refl, rw none_got refl, rw none_got (omega arith)))),
        omega (arith, long),
      )

  -- A reply is put into the array.
  collects-Goes :
      (c : Threads) (inv : Inv m P c) (n used : ℕ) (got there : List RefTwoDimIntArrayMsg)
      (msg : RefTwoDimIntArrayMsg)
      → inv.stage ≡ collecting (suc n)
      → c.root.todo ≡ RootStep.receives ∷ root_todo m P (collecting n)
      → AllRefer c.heap (got ++ (msg ∷ there)) (inv.rs)
      → AreReplies (msg ∷ there)
      → Bears (c.shared.segments P.root_id) (map ref_two_dim (msg ∷ there)) used
      → used ≤ P.room + 100 * length (inv.rs)
      → Slots m P c.root.state got (suc n)
      → Goes m P c (step m Turn.root c)
  unfolding reaction
  collects-Goes c inv n used got there msg at todo refer (tag, tagged) bears bound
        (arr, count, size) =
      let st = c.root.state in
      let st' = filled st (got ++ (msg ∷ [])) n in
      let run : handle_sub_array st (ref_two_dim msg) ≡ done st' =
        ap (λ s. handle_sub_array s (ref_two_dim msg)) (sym (shows st got (suc n) arr count))
        ∙ handle_sub_array-filled st got n msg in
      let longer = length-append got (msg ∷ []) in
      let some_left : suc n ≤ suc (P.k) = subst (IsStage m P) at (inv.is_stage) in
      root_takes m P c inv (root_todo m P (collecting n)) (ref_two_dim msg) (map ref_two_dim there)
        used (collecting n) handle_sub_array st' todo bears (rw tag refl) (rw tag refl) run refl
        refl (omega arith)
        (topology_restaged (inv.stage) (collecting n) c.root.topo_msg (λ y j e. cc) (inv.topo))
        (λ i lt f o. subst (λ s. Owed s i f) at o)
        (λ q bears'.
          early (got ++ (msg ∷ [])) there used
            (subst (λ l. AllRefer c.heap l (inv.rs)) (sym (append_assoc got (msg ∷ []) there))
              refer)
            tagged bears' bound (refl, refl, omega (arith, longer)))

  -- A `done` message is counted.
  ends-Goes :
      (c : Threads) (inv : Inv m P c) (n used : ℕ) (got : List RefTwoDimIntArrayMsg)
      (there : List DoneMsg) (msg : DoneMsg)
      → inv.stage ≡ ending (suc n)
      → c.root.todo ≡ RootStep.receives ∷ root_todo m P (ending n)
      → length (inv.rs) ≡ suc (P.k)
      → AllRefer c.heap got (inv.rs)
      → c.root.state.buckets_values_arr ≡ map some got
      → AreDone m P (msg ∷ there)
      → Bears (c.shared.segments P.root_id) (map signal (msg ∷ there)) used
      → (let total = length (pick_where has_ended c.buckets P.refs) in
          (used ≤ P.room + 100 * (suc (P.k) + total))
          × (length (msg ∷ there) + suc (P.k) ≡ total + suc n))
      → Goes m P c (step m Turn.root c)
  unfolding reaction handle_done
  ends-Goes c inv n used got there msg at todo full refer arr (tag, dones) bears (bound, f) =
      let some_left : suc n ≤ suc (P.k) = subst (IsStage m P) at (inv.is_stage) in
      root_takes m P c inv (root_todo m P (ending n)) (signal msg) (map signal there) used
        (ending n) handle_done c.root.state todo bears (rw tag refl) (rw tag refl) refl refl refl
        (omega arith)
        (topology_restaged (inv.stage) (ending n) c.root.topo_msg (λ y j e. cc) (inv.topo))
        (λ i lt f o. subst (λ s. Owed s i f) at o)
        (λ q bears'. late got there used full refer arr dones bears' bound (omega arith))

  -- What is left is to wait for a message that is not there, or the step is taken.
  abbrev pub RootWaits : Threads → Type 0
  RootWaits c =
      ((step m Turn.root c ≡ done c) × ((used : ℕ) × Bears (c.shared.segments P.root_id) [] used))
      ⊎ Goes m P c (step m Turn.root c)

  pub collecting_goes :
      (c : Threads) (inv : Inv m P c) (n : ℕ)
      → inv.stage ≡ collecting (suc n)
      → RootAt m P (collecting (suc n)) c.root.todo
      → RootInv m P
          (collecting (suc n))
          (inv.rs)
          c.heap
          c.root.state
          (c.shared.segments P.root_id)
          (length (pick_where has_ended c.buckets P.refs))
      → RootWaits c
  unfolding collects
  collecting_goes c inv n at todo (late got there used full refer arr dones bears bound f) =
      absurd f
  collecting_goes c inv n at (inl todo) (early got there used refer tagged bears bound slots) =
      elim (root_notifies m P c inv _ (map ref_two_dim there) used todo (ap (root_todo m P) at)
        bears) [
          | inl (same, nothing) ↦
              inl (
                same,
                (used, subst (λ l. Bears (c.shared.segments P.root_id) l used) nothing bears),
              )
          | inr goes ↦ inr goes
        ]
  collecting_goes c inv n at (inr (after, e, todo))
        (early got [] used refer tagged bears bound slots) =
      inl (root_receive_waits m P c inv after used todo bears, (used, bears))
  collecting_goes c inv n at (inr (after, e, todo))
        (early got (msg ∷ there) used refer tagged bears bound slots) =
      let now : c.root.todo ≡ RootStep.receives ∷ root_todo m P (collecting n) = cc in
      inr (collects-Goes c inv n used got there msg at now refer tagged bears bound slots)

  pub ending_goes :
      (c : Threads) (inv : Inv m P c) (n : ℕ)
      → inv.stage ≡ ending (suc n)
      → RootAt m P (ending (suc n)) c.root.todo
      → RootInv m P
          (ending (suc n))
          (inv.rs)
          c.heap
          c.root.state
          (c.shared.segments P.root_id)
          (length (pick_where has_ended c.buckets P.refs))
      → RootWaits c
  unfolding collects
  ending_goes c inv n at todo (early got there used refer tagged bears bound g) = absurd g
  ending_goes c inv n at (inl todo) (late got there used full refer arr dones bears bound f) =
      elim (root_notifies m P c inv _ (map signal there) used todo (ap (root_todo m P) at) bears) [
        | inl (same, nothing) ↦
            inl
              (same, (used, subst (λ l. Bears (c.shared.segments P.root_id) l used) nothing bears))
        | inr goes ↦ inr goes
      ]
  ending_goes c inv n at (inr (after, e, todo))
        (late got [] used full refer arr dones bears bound f) =
      inl (root_receive_waits m P c inv after used todo bears, (used, bears))
  ending_goes c inv n at (inr (after, e, todo))
        (late got (msg ∷ there) used full refer arr dones bears bound f) =
      let now : c.root.todo ≡ RootStep.receives ∷ root_todo m P (ending n) = cc in
      inr (ends-Goes c inv n used got there msg at now full refer arr dones bears (bound, f))
