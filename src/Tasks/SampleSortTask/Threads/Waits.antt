-- ===== src/Tasks/SampleSortTask/Threads/Waits.antt =====
-- The steps of the root that post nothing: it clears its array, and waits for messages.
use mathlib.Core.Path.{subst}
use francois_gingras_master.Common.{
  ℕ, suc, ◌<◌, ◌≡◌, ◌≢◌, ◌⊎◌, inl, inr, refl, sym, ap, ◌∙◌, Bool-cases, leb_ℤ, negsuc, false, ◌>>=◌,
  List, [], ◌∷◌, length, get_elem?-lt, Outcome, done, arith,
}
use francois_gingras_master.Queue.{Queue}
use francois_gingras_master.Messages.Message.{Message, header}
use francois_gingras_master.Messages.Message.Transit.{copied}
use francois_gingras_master.System.{Shared, with_segment}
use francois_gingras_master.System.Delivery.{
  Carries, IsMapped, segments-with_segment_self, message_immediate-Carries,
}
use francois_gingras_master.System.Delivery.Lane.{Bears, Bears-Carries}
use francois_gingras_master.Tasks.Dispatch.{handles, receive_by-waits}
use francois_gingras_master.Tasks.Dispatch.Lane.{receive_by-Bears}
use francois_gingras_master.Tasks.SampleSortTask.Receive.{SampleSort, reaction}
use francois_gingras_master.Tasks.SampleSortTask.Threads.{
  Machine, Post, RootStep, Threads, Turn, step, root_step, root_received,
}
use francois_gingras_master.Tasks.SampleSortTask.Threads.Plan.{
  RootInv, Inv, root_todo, RootAt, IsStage, IsTopology,
}
use francois_gingras_master.Tasks.SampleSortTask.Threads.Setting.{Plan, BucketInv}
use francois_gingras_master.Tasks.SampleSortTask.Threads.Stages.{
  RootStage, Owed, pick_where, has_ended,
}
use francois_gingras_master.Tasks.SampleSortTask.Threads.Frame.{BucketInv-restage}
use francois_gingras_master.Tasks.SampleSortTask.Threads.Change.{Goes, with_segment_others}
use francois_gingras_master.Tasks.SampleSortTask.Threads.Replied.{root-IsMapped}

module _ (m : Machine) (P : Plan) where
  -- Only the root and perhaps its own queue have changed.
  pub change_root-RootAt :
      (c : Threads) (inv : Inv m P c) (s : Shared) (st : SampleSort) (todo : List RootStep)
      (stage : RootStage)
      → st.task_id ≡ c.root.state.task_id
      → RootAt m P stage todo
      → IsStage m P stage
      → IsTopology m P stage c.root.topo_msg
      → ((i : ℕ)
          → i < suc (P.k)
          → (future : List Post) → Owed (inv.stage) i future
          → Owed stage i future)
      → ((id : ℕ) → id ≢ P.root_id → s.segments id ≡ c.shared.segments id)
      → RootInv m P stage
          (inv.rs)
          c.heap
          st
          (s.segments P.root_id)
          (length (pick_where has_ended c.buckets P.refs))
      → (inv' : Inv m P
          (record c { shared = s; root = record (c.root) { state = st; todo = todo } }))
        × (inv'.stage ≡ stage)
  change_root-RootAt c inv s st todo stage same at is topo owes others gathers = (
    record {
      rs = inv.rs;
      stage = stage;
      data_at = inv.data_at;
      table = inv.table;
      self = same ∙ inv.self;
      known_ids = inv.known_ids;
      known_refs = inv.known_refs;
      todo_at = at;
      is_stage = is;
      topo = topo;
      splitters = inv.splitters;
      count = inv.count;
      each = λ j u eu.
          let bu = inv.each j u eu in
          let below : j < suc (P.k) = omega (arith, get_elem?-lt c.buckets j u eu, inv.count) in
          subst (BucketInv m P stage (inv.rs) c.heap j u)
            (sym (others u.state.task_id (P.apart j u.state.task_id (bu.self))))
            (BucketInv-restage m P (inv.stage) stage (inv.rs) c.heap j u
              (c.shared.segments u.state.task_id) (owes j below) bu);
      arrived = inv.arrived;
      gathers = gathers;
    },
    refl,
  )

  pub change_root :
      (c : Threads) (inv : Inv m P c) (s : Shared) (st : SampleSort) (todo : List RootStep)
      (stage : RootStage)
      → st.task_id ≡ c.root.state.task_id
      → RootAt m P stage todo
      → IsStage m P stage
      → IsTopology m P stage c.root.topo_msg
      → ((i : ℕ)
          → i < suc (P.k)
          → (future : List Post) → Owed (inv.stage) i future
          → Owed stage i future)
      → ((id : ℕ) → id ≢ P.root_id → s.segments id ≡ c.shared.segments id)
      → RootInv m P stage
          (inv.rs)
          c.heap
          st
          (s.segments P.root_id)
          (length (pick_where has_ended c.buckets P.refs))
      → Inv m P (record c { shared = s; root = record (c.root) { state = st; todo = todo } })
  change_root c inv s st todo stage same at is topo owes others gathers =
      (change_root-RootAt c inv s st todo stage same at is topo owes others gathers).0

  -- message_notify returns once there is a message.
  pub root_notifies :
      (c : Threads) (inv : Inv m P c) (rest : List RootStep) (ns : List Message) (used : ℕ)
      → c.root.todo ≡ RootStep.notifies ∷ RootStep.receives ∷ rest
      → root_todo m P (inv.stage) ≡ RootStep.notifies ∷ RootStep.receives ∷ rest
      → Bears (c.shared.segments P.root_id) ns used
      → ((step m Turn.root c ≡ done c) × (ns ≡ [])) ⊎ Goes m P c (step m Turn.root c)
  unfolding step root_step
  root_notifies c inv rest ns used todo whole bears =
      let t = c.root.state.task_id in
      let (empty, test, means) =
        message_immediate-Carries c.shared c.process (m.at t) (P.base P.root_id) t ns
          (subst (λ i. IsMapped c.process i (P.base P.root_id)) (sym (inv.self))
            (root-IsMapped m P c inv))
          (subst (λ i. Carries (c.shared.segments i) ns) (sym (inv.self))
            (Bears-Carries (c.shared.segments P.root_id) ns used bears)) in
      let long : length c.root.todo ≡ suc (suc (length rest)) = ap length todo in
      let step_is : step m Turn.root c
          ≡ root_step m (RootStep.notifies ∷ RootStep.receives ∷ rest) c =
        ap (λ l. root_step m l c) todo in
      elim (Bool-cases empty) [
        | inl none_there ↦ inl (step_is ∙ rw (test, none_there) refl, means.0 none_there)
        | inr some_there ↦ inr (
          record c { root = record (c.root) { todo = RootStep.receives ∷ rest } },
          step_is ∙ rw (test, some_there) refl,
          change_root c inv c.shared c.root.state (RootStep.receives ∷ rest) (inv.stage) refl
              (inr (rest, whole, refl)) (inv.is_stage) (inv.topo) (λ i lt f o. o) (λ id o. refl)
              (inv.gathers),
          omega (arith, long),
        )
      ]

  pub root_receive_waits :
      (c : Threads) (inv : Inv m P c) (rest : List RootStep) (used : ℕ)
      → c.root.todo ≡ RootStep.receives ∷ rest
      → Bears (c.shared.segments P.root_id) [] used
      → step m Turn.root c ≡ done c
  unfolding step root_step root_received
  root_receive_waits c inv rest used todo bears =
      let t = c.root.state.task_id in
      let wait =
        receive_by-waits reaction c.root.state c.shared c.process (m.at t) (P.base P.root_id) t
          (subst (λ i. IsMapped c.process i (P.base P.root_id)) (sym (inv.self))
            (root-IsMapped m P c inv))
          (subst (λ i. Carries (c.shared.segments i) []) (sym (inv.self))
            (Bears-Carries (c.shared.segments P.root_id) [] used bears)) in
      ap (λ l. root_step m l c) todo ∙ rw wait refl

  -- A message is handled and the root is one step further.
  pub root_takes :
      (c : Threads) (inv : Inv m P c) (rest : List RootStep) (n : Message) (ns : List Message)
      (used : ℕ) (stage : RootStage) (handler : SampleSort → Message → Outcome SampleSort)
      (st : SampleSort)
      → c.root.todo ≡ RootStep.receives ∷ rest
      → Bears (c.shared.segments P.root_id) (n ∷ ns) used
      → leb_ℤ (header n).tag (negsuc 0) ≡ false
      → reaction (header n).tag ≡ handles handler
      → handler c.root.state (copied n) ≡ done st
      → st.task_id ≡ c.root.state.task_id
      → rest ≡ root_todo m P stage
      → IsStage m P stage
      → IsTopology m P stage c.root.topo_msg
      → ((i : ℕ)
          → i < suc (P.k)
          → (future : List Post) → Owed (inv.stage) i future
          → Owed stage i future)
      → ((q : Queue Message)
          → Bears q ns used
          → RootInv m P stage (inv.rs) c.heap st q (length (pick_where has_ended c.buckets P.refs)))
      → Goes m P c (step m Turn.root c)
  unfolding step root_step root_received
  root_takes c inv rest n ns used stage handler st todo bears tagged sw run same at is topo owes
        gathers =
      let t = c.root.state.task_id in
      let (q, got, bears') =
        receive_by-Bears reaction handler c.root.state st c.shared c.process (m.at t)
          (P.base P.root_id) t n ns used
          (subst (λ i. IsMapped c.process i (P.base P.root_id)) (sym (inv.self))
            (root-IsMapped m P c inv))
          (subst (λ i. Bears (c.shared.segments i) (n ∷ ns) used) (sym (inv.self)) bears) tagged sw
          run in
      let s' = with_segment c.shared t q in
      let long : length c.root.todo ≡ suc (length rest) = ap length todo in
      let own : s'.segments P.root_id ≡ q =
        ap s'.segments (sym (inv.self)) ∙ segments-with_segment_self c.shared t q in
      (
        record c { shared = s'; root = record (c.root) { state = st; todo = rest } },
        ap (λ l. root_step m l c) todo ∙ ap (λ r. r >>= λ x. done (root_received m c rest x)) got,
        change_root c inv s' st rest stage same (inl at) is topo owes
            (λ id other. with_segment_others m P c.shared t q id (λ z. other (z ∙ inv.self)))
            (subst
              (λ x.
                RootInv m P stage (inv.rs) c.heap st x
                  (length (pick_where has_ended c.buckets P.refs)))
              (sym own) (gathers q bears')),
        omega (arith, long),
      )
