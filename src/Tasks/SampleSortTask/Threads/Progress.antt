-- ===== src/Tasks/SampleSortTask/Threads/Progress.antt =====
-- The stages of the root, one after the other.
use francois_gingras_master.Tasks.SampleSortTask.Threads.{BucketThread}
use mathlib.Core.Path.{subst}
use francois_gingras_master.Common.{
  get_elem?, ℕ, zero, suc, ◌<◌, ◌≡◌, ◌≢◌, inl, inr, refl, sym, ap, ◌∙◌, false, some, List, [], ◌∷◌,
  ◌++◌, map, append-nil, length, length-append, leb, arith,
}
use francois_gingras_master.Queue.{Queue}
use francois_gingras_master.Messages.Header.{Heap, Ptr}
use francois_gingras_master.Messages.RefTwoDimIntArrayMsg.{RefTwoDimIntArrayMsg}
use francois_gingras_master.Messages.Message.{Message}
use francois_gingras_master.System.Delivery.Lane.{Bears}
use francois_gingras_master.Tasks.SampleSortTask.{SubArrays}
use francois_gingras_master.Tasks.SampleSortTask.Rounds.{AllRefer}
use francois_gingras_master.Tasks.SampleSortTask.Threads.{
  Machine, Post, the_topology, the_reference, the_splitters, the_signal, the_column, BucketStep,
  Threads, posts_from, collects,
}
use francois_gingras_master.Tasks.SampleSortTask.Threads.Plan.{
  RootInv, early, late, Inv, RootAt, IsStage,
}
use francois_gingras_master.Tasks.SampleSortTask.Threads.Setting.{Plan, Pending}
use francois_gingras_master.Tasks.SampleSortTask.Threads.Stages.{
  Stage, fresh, informed, referred, split, signalled, replied, rebuilt, ended, RootStage, posting,
  clearing, collecting, ending, Owed, expected, pick_where, has_ended, At,
}
use francois_gingras_master.Tasks.SampleSortTask.Threads.Picks.{pick_where_none}
use francois_gingras_master.Tasks.SampleSortTask.Threads.Replied.{rs-le}
use francois_gingras_master.Tasks.SampleSortTask.Threads.Waits.{change_root-RootAt}
use francois_gingras_master.Tasks.SampleSortTask.Threads.Collecting.{topology_restaged}

pub AllRefer-length :
    (heap : Heap) (ms : List RefTwoDimIntArrayMsg) (rs : List SubArrays)
    → AllRefer heap ms rs
    → length ms ≡ length rs
AllRefer-length heap [] [] a = refl
AllRefer-length heap [] (r ∷ rs) a = absurd a
AllRefer-length heap (m ∷ ms) [] a = absurd a
AllRefer-length heap (m ∷ ms) (r ∷ rs) a = ap suc (AllRefer-length heap ms rs a.1)

-- A queue is not both empty and not.
pub Bears-empty :
    (q : Queue Message) (n : Message) (ns : List Message) (used used' : ℕ)
    → Bears q [] used
    → Bears q (n ∷ ns) used'
    → ⊥
Bears-empty q n ns used used' ([], l, im) (m ∷ ms, l', im') =
    let here = l.counted in let there = l'.counted in absurd (omega arith)
Bears-empty q n ns used used' ([], l, im) ([], l', im') = im'
Bears-empty q n ns used used' (m ∷ ms, l, im) b = im

-- A thread that has something left has not ended.
At-ended :
    (s : Stage) (todo : List BucketStep) → At s todo → expected s ≢ [] → leb (length todo) 0 ≡ false
At-ended fresh todo (inl e) h = rw e refl
At-ended informed todo (inl e) h = rw e refl
At-ended referred todo (inl e) h = rw e refl
At-ended split todo (inl e) h = rw e refl
At-ended signalled todo (inl e) h = rw e refl
At-ended replied todo (inl e) h = rw e refl
At-ended rebuilt todo (inl e) h = absurd (h refl)
At-ended ended todo (inl e) h = absurd (h refl)
At-ended s todo (inr (aw, e)) h = rw e (ground arith)

module _ (m : Machine) (P : Plan) where
  -- Before the columns no bucket has ended.
  pub still_running :
      (c : Threads) (inv : Inv m P c)
      → ((i : ℕ) (future : List Post) → Owed (inv.stage) i future → future ≢ [])
      → (i : ℕ) (t : BucketThread) → get_elem? c.buckets i ≡ some t
      → has_ended t ≡ false
  still_running c inv owing i t e =
      let b = inv.each i t e in
      At-ended (b.at) t.todo (b.todo_at) (λ z.
        owing i (b.future) (b.owed)
          (expects_nothing i (b.ref) (b.ns) (expected (b.at)) (b.future) (b.pending) z))
    where
      expects_nothing :
          (i : ℕ) (r : ℕ × Ptr) (ns : List Message) (es future : List Post)
          → Pending m P c.heap (inv.rs) i r ns es future
          → es ≡ []
          → future ≡ []
      expects_nothing i r [] es future h z = sym h ∙ z
      expects_nothing i r (n ∷ ns) [] future h z = absurd h
      expects_nothing i r (n ∷ ns) (e ∷ es) future h z = absurd (cc)

  none_ended :
      (c : Threads) (inv : Inv m P c)
      → ((i : ℕ) (future : List Post) → Owed (inv.stage) i future → future ≢ [])
      → pick_where has_ended c.buckets P.refs ≡ []
  none_ended c inv owing = pick_where_none has_ended c.buckets P.refs (still_running c inv owing)

  -- A stage that is not at its end.
  abbrev pub IsOpen : RootStage → Type 0
  IsOpen (posting p x n) = 0 < n
  IsOpen clearing = Unit {0}
  IsOpen (collecting n) = 0 < n
  IsOpen (ending n) = Unit {0}

  abbrev pub Opened : Threads → Type 0
  unfolding IsOpen
  Opened c = (inv : Inv m P c) × IsOpen (inv.stage)

  -- The root goes over to the next stage.
  moves_on :
      (c : Threads) (inv : Inv m P c) (stage next : RootStage)
      → inv.stage ≡ stage
      → RootAt m P next c.root.todo
      → IsStage m P next
      → ((y k : ℕ) → next ≢ posting the_topology y k)
      → ((i : ℕ) → i < suc (P.k) → (future : List Post) → Owed stage i future → Owed next i future)
      → RootInv m P next
          (inv.rs)
          c.heap
          c.root.state
          (c.shared.segments P.root_id)
          (length (pick_where has_ended c.buckets P.refs))
      → IsOpen next
      → Opened c
  moves_on c inv stage next at todo is later owes g open_now =
      let (inv', there) =
        change_root-RootAt m P c inv c.shared c.root.state c.root.todo next refl todo is
          (topology_restaged m P (inv.stage) next c.root.topo_msg later (inv.topo))
          (λ i lt f o. owes i lt f (subst (λ s. Owed s i f) at o)) (λ id o. refl) g in
      (inv', subst IsOpen (sym there) open_now)

  -- The end of a loop of posts is the beginning of what comes next.
  opens :
      (c : Threads) (inv : Inv m P c) (stage : RootStage)
      → inv.stage ≡ stage
      → RootAt m P stage c.root.todo
      → IsStage m P stage
      → RootInv m P stage
          (inv.rs)
          c.heap
          c.root.state
          (c.shared.segments P.root_id)
          (length (pick_where has_ended c.buckets P.refs))
      → Opened c
  unfolding posts_from collects
  opens c inv (posting p x (suc n)) at todo is g = (inv, rw at (omega arith))
  opens c inv clearing at todo is g = (inv, rw at tt)
  opens c inv (collecting (suc n)) at todo is g = (inv, rw at (omega arith))
  opens c inv (ending n) at todo is g = (inv, rw at tt)
  opens c inv (posting the_topology x zero) at todo is
        (late got there used full refer arr dones bears bound f) =
      absurd f
  opens c inv (posting the_topology x zero) at todo is
        (early got there used refer tagged bears bound g) =
      let next = posting the_reference 0 (suc (P.k)) in
      moves_on c inv (posting the_topology x zero) next at todo (omega arith) (λ y j e. cc)
        (λ i lt f o. (λ h. absurd (omega arith), λ h. o.0 (omega arith)))
        (early got there used refer tagged bears bound g) (omega arith)
  opens c inv (posting the_reference x zero) at todo is
        (late got there used full refer arr dones bears bound f) =
      absurd f
  opens c inv (posting the_reference x zero) at todo is
        (early got there used refer tagged bears bound g) =
      let next = posting the_splitters 0 (suc (P.k)) in
      moves_on c inv (posting the_reference x zero) next at todo (omega arith) (λ y j e. cc)
        (λ i lt f o. (λ h. absurd (omega arith), λ h. o.0 (omega arith)))
        (early got there used refer tagged bears bound g) (omega arith)
  opens c inv (posting the_splitters x zero) at todo is
        (late got there used full refer arr dones bears bound f) =
      absurd f
  opens c inv (posting the_splitters x zero) at todo is
        (early got there used refer tagged bears bound g) =
      moves_on c inv (posting the_splitters x zero) clearing at todo tt (λ y j e. cc)
        (λ i lt f o. o.0 (omega arith)) (early got there used refer tagged bears bound g) tt
  opens c inv (posting the_signal x zero) at todo is
        (late got there used full refer arr dones bears bound f) =
      absurd f
  opens c inv (posting the_signal x zero) at todo is
        (early got there used refer tagged bears bound (none_got, slots)) =
      let next = collecting (suc (P.k)) in
      moves_on c inv (posting the_signal x zero) next at todo (omega arith) (λ y j e. cc)
        (λ i lt f o. o.0 (omega arith)) (early got there used refer tagged bears bound slots)
        (omega arith)
  opens c inv (posting the_column x zero) at todo is
        (early got there used refer tagged bears bound g) =
      absurd g
  opens c inv (posting the_column x zero) at todo is
        (late got there used full refer arr dones bears bound f) =
      let next = ending (suc (P.k)) in
      moves_on c inv (posting the_column x zero) next at todo (omega arith) (λ y j e. cc)
        (λ i lt f o. o.0 (omega arith))
        (late got there used full refer arr dones bears bound (omega arith)) (tt)
  opens c inv (collecting zero) at todo is
        (late got there used full refer arr dones bears bound f) =
      absurd f
  opens c inv (collecting zero) at todo is
        (early got (msg ∷ there) used refer tagged bears bound (arr, count, size)) =
      absurd (
        omega (
          arith,
          AllRefer-length c.heap (got ++ (msg ∷ there)) (inv.rs) refer,
          length-append got (msg ∷ there),
          rs-le m P c inv,
        ))
  opens c inv (collecting zero) at todo is
        (early got [] used refer tagged bears bound (arr, count, size)) =
      let next = posting the_column 0 (suc (P.k)) in
      let full : length (inv.rs) ≡ suc (P.k) =
        omega (arith, AllRefer-length c.heap (got ++ []) (inv.rs) refer, length-append got []) in
      let nobody : length (pick_where has_ended c.buckets P.refs) ≡ 0 =
        ap length (
          none_ended c inv (λ i f o z. let no_more = sym z ∙ subst (λ s. Owed s i f) at o in cc)) in
      moves_on c inv (collecting zero) next at todo (omega arith) (λ y j e. cc)
        (λ i lt f o. (λ h. absurd (omega arith), λ h. o))
        (late got [] used full (subst (λ l. AllRefer c.heap l (inv.rs)) (append-nil got) refer)
          (arr ∙ append-nil (map some got)) tt bears (omega (arith, full)) (sym nobody))
        (omega arith)

  pub opened : (c : Threads) → Inv m P c → Opened c
  opened c inv = opens c inv (inv.stage) refl (inv.todo_at) (inv.is_stage) (inv.gathers)
