-- ===== src/Tasks/SampleSortTask/Threads/Change.antt =====
-- A turn that changes one bucket, and how much the threads of a sample sort still have to do.
use mathlib.Core.Path.{subst}
use mathlib.Core.List.{Permᴰ}
use francois_gingras_master.Common.{
  ℕ, ◌+◌, ◌<◌, ◌≡◌, ◌≢◌, inl, inr, refl, sym, ap, ◌∙◌, true, some, List, ◌∷◌, map, leb, length,
  length-set, set, get_elem?, Outcome, done,
}
use francois_gingras_master.Queue.{Queue}
use francois_gingras_master.Messages.Message.{Message}
use francois_gingras_master.System.{Shared, with_segment}
use francois_gingras_master.System.Delivery.{IsMapped, segments-with_segment}
use francois_gingras_master.Tasks.SampleSortTask.{SubArrays}
use francois_gingras_master.Messages.Header.{Heap}
use francois_gingras_master.Tasks.SampleSortTask.Threads.{
  Machine, BucketStep, notifies, receives, BucketThread, Threads,
}
use francois_gingras_master.Tasks.SampleSortTask.Threads.Plan.{RootInv, Inv}
use francois_gingras_master.Tasks.SampleSortTask.Threads.Setting.{Plan, BucketInv, reply}
use francois_gingras_master.Tasks.SampleSortTask.Threads.Stages.{
  Stage, fresh, informed, referred, split, signalled, replied, rebuilt, ended, program, awaits, At,
  has_replied, has_ended, pick_where,
}
use francois_gingras_master.Tasks.SampleSortTask.Threads.Picks.{
  set_cases, pick_where_same, steps_left,
}
use francois_gingras_master.Tasks.SampleSortTask.Threads.Takes.{next}

-- All steps that are left.
abbrev pub measure : Threads → ℕ
measure c = length c.root.todo + steps_left c.buckets

-- What follows a wait for a message.
pub record Follows (s : Stage) (rest : List BucketStep) : Type 0 where
  pub next_at : At (next s) rest
  pub same_replied : leb (length rest) 3 ≡ leb (length (program s)) 3
  pub same_ended : leb (length rest) 0 ≡ leb (length (program s)) 0
  pub notify_replied : leb (length (program s)) 3 ≡ leb (length (notifies ∷ program s)) 3
  pub notify_ended : leb (length (program s)) 0 ≡ leb (length (notifies ∷ program s)) 0

pub awaits-Follows :
    (s : Stage)
    → awaits s ≡ true
    → (rest : List BucketStep) × (program s ≡ receives ∷ rest) × Follows s rest
awaits-Follows fresh a = (
  notifies ∷ program informed,
  refl,
  record {
    next_at = inr (refl, refl);
    same_replied = refl;
    same_ended = refl;
    notify_replied = refl;
    notify_ended = refl;
  },
)
awaits-Follows informed a = (
  notifies ∷ program referred,
  refl,
  record {
    next_at = inr (refl, refl);
    same_replied = refl;
    same_ended = refl;
    notify_replied = refl;
    notify_ended = refl;
  },
)
awaits-Follows referred a = (
  notifies ∷ program split,
  refl,
  record {
    next_at = inr (refl, refl);
    same_replied = refl;
    same_ended = refl;
    notify_replied = refl;
    notify_ended = refl;
  },
)
awaits-Follows split a = (
  program signalled,
  refl,
  record {
    next_at = inl refl;
    same_replied = refl;
    same_ended = refl;
    notify_replied = refl;
    notify_ended = refl;
  },
)
awaits-Follows replied a = (
  program rebuilt,
  refl,
  record {
    next_at = inl refl;
    same_replied = refl;
    same_ended = refl;
    notify_replied = refl;
    notify_ended = refl;
  },
)
awaits-Follows signalled a = absurd (cc)
awaits-Follows rebuilt a = absurd (cc)
awaits-Follows ended a = absurd (cc)

module _ (m : Machine) (P : Plan) where
  -- The step is taken, and less is left to do.
  abbrev pub Goes : Threads → Outcome Threads → Type 0
  Goes c e = (c' : Threads) × (e ≡ done c') × Inv m P c' × (measure c' < measure c)

  pub bucket-IsMapped :
      (c : Threads)
      → Inv m P c
      → (i id : ℕ) → get_elem? P.ids i ≡ some id
      → IsMapped c.process id (P.base id)
  bucket-IsMapped c inv i id e = rw (inv.table) (P.mapped i id e)

  -- One bucket changes, with the heap, the queues and the replies.
  pub replace_bucket :
      (c : Threads) (i : ℕ) (t' : BucketThread) (inv : Inv m P c) (rs' : List SubArrays)
      (heap' : Heap) (s' : Shared)
      → get_elem? heap' P.block ≡ some P.cells
      → BucketInv m P (inv.stage) rs' heap' i t' (s'.segments t'.state.task_id)
      → ((j : ℕ) (u : BucketThread)
          → i ≢ j
          → get_elem? c.buckets j ≡ some u
          → BucketInv m P (inv.stage) rs' heap' j u (s'.segments u.state.task_id))
      → Permᴰ (pick_where has_replied (set c.buckets i t') (map (reply m P) P.refs)) rs'
      → RootInv m P
          (inv.stage)
          rs'
          heap'
          c.root.state
          (s'.segments P.root_id)
          (length (pick_where has_ended (set c.buckets i t') P.refs))
      → Inv m P (record c { heap = heap'; shared = s'; buckets = set c.buckets i t' })
  replace_bucket c i t' inv rs' heap' s' data_at mine others arrived gathers = record {
    rs = rs';
    stage = inv.stage;
    data_at = data_at;
    table = inv.table;
    self = inv.self;
    known_ids = inv.known_ids;
    known_refs = inv.known_refs;
    todo_at = inv.todo_at;
    is_stage = inv.is_stage;
    topo = inv.topo;
    splitters = inv.splitters;
    count = length-set c.buckets i t' ∙ inv.count;
    each = λ j u eu. elim (set_cases c.buckets i t' j u eu) [
      | inl (at, is) ↦
          subst (λ w. BucketInv m P (inv.stage) rs' heap' j w (s'.segments w.state.task_id)) is
            (subst (λ k. BucketInv m P (inv.stage) rs' heap' k t' (s'.segments t'.state.task_id)) at
              mine)
      | inr (other, old) ↦ others j u other old
    ];
    arrived = arrived;
    gathers = gathers;
  }

  -- A bucket and perhaps its own queue have changed, but not whether it has replied or ended.
  pub change_bucket :
      (c : Threads) (s : Shared) (i : ℕ) (t t' : BucketThread) (inv : Inv m P c)
      → get_elem? c.buckets i ≡ some t
      → t'.state.task_id ≡ t.state.task_id
      → has_replied t' ≡ has_replied t
      → has_ended t' ≡ has_ended t
      → BucketInv m P (inv.stage) (inv.rs) c.heap i t' (s.segments t'.state.task_id)
      → ((id : ℕ) → id ≢ t.state.task_id → s.segments id ≡ c.shared.segments id)
      → Inv m P (record c { shared = s; buckets = set c.buckets i t' })
  change_bucket c s i t t' inv e same r d mine others =
      let b = inv.each i t e in
      replace_bucket c i t' inv (inv.rs) c.heap s (inv.data_at) mine
        (λ j u other old.
          let bu = inv.each j u old in
          let ids_differ : u.state.task_id ≢ t.state.task_id =
            λ z. other (P.distinct i j t.state.task_id b.self (bu.self ∙ ap some z)) in
          subst (BucketInv m P (inv.stage) (inv.rs) c.heap j u)
            (sym (others u.state.task_id ids_differ)) bu)
        (subst (λ l. Permᴰ l (inv.rs))
          (sym (pick_where_same has_replied c.buckets (map (reply m P) P.refs) i t t' e r))
          inv.arrived)
        (subst
          (λ q.
            RootInv m P (inv.stage) (inv.rs) c.heap c.root.state q
              (length (pick_where has_ended (set c.buckets i t') P.refs)))
          (sym (others P.root_id (λ z. P.apart i t.state.task_id b.self (sym z))))
          (subst
            (λ l.
              RootInv m P (inv.stage) (inv.rs) c.heap c.root.state (c.shared.segments P.root_id)
                (length l))
            (sym (pick_where_same has_ended c.buckets P.refs i t t' e d)) inv.gathers))

  pub with_segment_others :
      (s : Shared) (t : ℕ) (q : Queue Message) (id : ℕ)
      → id ≢ t
      → (with_segment s t q).segments id ≡ s.segments id
  with_segment_others s t q id other = segments-with_segment s t id q (λ z. other (sym z))
