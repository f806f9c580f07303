-- ===== src/Tasks/SampleSortTask/Threads/Root.antt =====
-- The steps of the root that post a message to a bucket.
use mathlib.Core.Path.{subst}
use native.Mathlib.Decide.{ℕ_discrete}
use francois_gingras_master.Common.{false}
use francois_gingras_master.Common.{
  ℕ, suc, ◌+◌, ◌≡◌, ◌≢◌, inl, inr, refl, sym, ap, ◌∙◌, some, List, [], ◌∷◌, ◌++◌, length, get_elem?,
  get_elem?-some, done, arith,
}
use francois_gingras_master.Queue.{Queue}
use francois_gingras_master.Messages.Header.{Heap}
use francois_gingras_master.Messages.Message.{Message}
use francois_gingras_master.System.{with_segment}
use francois_gingras_master.System.Delivery.{segments-with_segment, segments-with_segment_self}
use francois_gingras_master.System.Delivery.Lane.{Bears, send-Bears}
use francois_gingras_master.Messages.Message.Law.{after}
use francois_gingras_master.Tasks.SampleSortTask.{SubArrays}
use francois_gingras_master.Tasks.SampleSortTask.RoundTwo.{get_elem?-extend}
use francois_gingras_master.Tasks.SampleSortTask.Threads.{
  Machine, Post, RootThread, BucketThread, Threads, Turn, posts, posts_from, step, root_step,
  root_post, keep_sent,
}
use francois_gingras_master.Tasks.SampleSortTask.Threads.{dangles}
use francois_gingras_master.Tasks.SampleSortTask.Threads.Races.{next_dangles, races}
use francois_gingras_master.Tasks.SampleSortTask.Threads.Plan.{
  RootInv, Inv, after_posts, RootAt, IsStage,
}
use francois_gingras_master.Tasks.SampleSortTask.Threads.Setting.{Plan, Brings, Pending, BucketInv}
use francois_gingras_master.Tasks.SampleSortTask.Threads.Stages.{
  posting, Owed, owed_after, expected, pick_where, has_ended,
}
use francois_gingras_master.Tasks.SampleSortTask.Threads.Frame.{
  BucketInv-extend, BucketInv-apart, BucketInv-restage, RootInv-extend,
}
use francois_gingras_master.Tasks.SampleSortTask.Threads.Brings.{Pending-extend, Pending-snoc}
use francois_gingras_master.Tasks.SampleSortTask.Threads.Change.{Goes, bucket-IsMapped}
use francois_gingras_master.Tasks.SampleSortTask.Threads.Posts.{posts_build}
use francois_gingras_master.Tasks.SampleSortTask.Threads.Builds.{Builds}
use francois_gingras_master.Tasks.SampleSortTask.Threads.SameRoot.{
  owed_from_lem, keep_sent-SameRoot, RootInv_next,
}

module _ (m : Machine) (P : Plan) where
  -- The bucket that was posted to.
  posted :
      (c : Threads) (p : Post) (x n : ℕ) (t : BucketThread) (rs : List SubArrays) (msg : Message)
      (new : Heap) (q' : Queue Message)
      → (b : BucketInv m P (posting p x (suc n)) rs c.heap x t (c.shared.segments t.state.task_id))
      → (f : b.future ≡ p ∷ owed_after p) → Brings m P (c.heap ++ new) rs x (b.ref) p msg
      → Bears q' (b.ns ++ (msg ∷ [])) (b.used + 50000)
      → BucketInv m P (posting p (x + 1) n) rs (c.heap ++ new) x t q'
  posted c p x n t rs msg new q' b f brings bears =
      let size : length (b.future) ≡ suc (length (owed_after p)) = ap length f in
      record {
        at = b.at;
        todo_at = b.todo_at;
        self = b.self;
        ref = b.ref;
        ref_at = b.ref_at;
        knows = b.knows;
        ns = b.ns ++ (msg ∷ []);
        future = owed_after p;
        used = b.used + 50000;
        bears = bears;
        budget = omega (arith, b.budget, size);
        owed = (λ h. refl, λ h. absurd (omega arith));
        pending =
            Pending-snoc m P (c.heap ++ new) rs x (b.ref) (b.ns) (expected (b.at)) p (owed_after p)
              msg
              (subst (Pending m P (c.heap ++ new) rs x (b.ref) (b.ns) (expected (b.at))) f (
                Pending-extend m P c.heap new rs x (b.ref) (b.ns) (expected (b.at)) (b.future)
                  (b.pending)))
              brings;
      }

  -- A bucket that it was not.
  not_posted :
      (p : Post) (x n i : ℕ)
      → x ≢ i
      → (future : List Post) → Owed (posting p x (suc n)) i future
      → Owed (posting p (x + 1) n) i future
  not_posted p x n i other future (reached, ahead) =
      (λ h. reached (ground (arith, other)), λ h. ahead (omega arith))

  not_posted_bucket :
      (c : Threads) (inv : Inv m P c) (p : Post) (x n id : ℕ) (new : Heap) (q : Queue Message)
      → inv.stage ≡ posting p x (suc n)
      → get_elem? P.ids x ≡ some id
      → (j : ℕ) (u : BucketThread) → x ≢ j
      → get_elem? c.buckets j ≡ some u
      → BucketInv m P
          (posting p (x + 1) n)
          (inv.rs)
          (c.heap ++ new)
          j
          u
          ((with_segment c.shared id q).segments u.state.task_id)
  not_posted_bucket c inv p x n id new q at self j u other eu =
      let bu = inv.each j u eu in
      let ids_differ : id ≢ u.state.task_id =
        λ z. other (P.distinct x j id self (bu.self ∙ ap some (sym z))) in
      let before = c.shared.segments u.state.task_id in
      let restaged : BucketInv m P (posting p (x + 1) n) (inv.rs) c.heap j u before =
        BucketInv-restage m P (posting p x (suc n)) (posting p (x + 1) n) (inv.rs) c.heap j u before
          (not_posted p x n j other)
          (subst (λ l. BucketInv m P l (inv.rs) c.heap j u before) at bu) in
      BucketInv-apart m P (posting p (x + 1) n) (inv.rs) (c.heap ++ new) j u c.shared id q
        ids_differ
        (BucketInv-extend m P (posting p (x + 1) n) (inv.rs) c.heap new j u before restaged)

  posts_at :
      (c : Threads) (inv : Inv m P c) (p : Post) (x n : ℕ) (t : BucketThread)
      → inv.stage ≡ posting p x (suc n)
      → x + suc n ≡ suc (P.k)
      → c.root.todo ≡ posts p x ∷ posts_from p (x + 1) n (after_posts m P p)
      → (et : get_elem? c.buckets x ≡ some t)
      → (b : BucketInv m P
          (posting p x (suc n))
          (inv.rs)
          c.heap
          x
          t
          (c.shared.segments t.state.task_id))
      → Builds m P c (inv.rs) p x n (b.ref)
      → RootInv m P
          (posting p x (suc n))
          (inv.rs)
          c.heap
          c.root.state
          (c.shared.segments P.root_id)
          (length (pick_where has_ended c.buckets P.refs))
      → dangles p c.buckets ≡ false
      → Goes m P c (step m Turn.root c)
  unfolding step root_step root_post posts_from
  posts_at c inv p x n t at whole todo et b made gathers safe =
      let id = t.state.task_id in
      let msg = made.msg in
      let heap' = c.heap ++ made.new in
      let rest = posts_from p (x + 1) n (after_posts m P p) in
      let owes : b.future ≡ p ∷ owed_after p = (b.owed).1 (omega arith) ∙ owed_from_lem p in
      let size : length (b.future) ≡ suc (length (owed_after p)) = ap length owes in
      let known : get_elem? c.root.buckets x ≡ some id =
        ap (λ l. get_elem? l x) (inv.known_ids) ∙ b.self in
      let (q, sent, bears') =
        send-Bears c.shared c.process (m.at id) (P.base id) msg id (b.ns) (b.used) (b.used + 50000)
          (bucket-IsMapped m P c inv x id (b.self)) (b.bears) (made.ready)
          (omega (arith, made.sized)) (omega (arith, b.budget, size)) in
      let s' = with_segment c.shared id q in
      let runs : root_post m p x rest c
          ≡ done (record c {
            heap = heap';
            shared = s';
            root = keep_sent m p (after msg) (record (c.root) { todo = rest });
          }) =
        rw (made.built, known, sent) refl in
      let r0 : RootThread = record (c.root) { todo = rest } in
      let r' = keep_sent m p (after msg) r0 in
      let same = keep_sent-SameRoot m p (after msg) r0 in
      let away : id ≢ P.root_id = P.apart x id (b.self) in
      let long : length c.root.todo ≡ suc (length rest) = ap length todo in
      let short : length r'.todo ≡ length rest = ap length (same.todo_same) in
      (
        record c { heap = heap'; shared = s'; root = r' },
        ap (λ l. root_step m l c) todo ∙ rw safe runs,
        record {
          rs = inv.rs;
          stage = posting p (x + 1) n;
          data_at = get_elem?-extend c.heap (made.new) P.block P.cells (inv.data_at);
          table = inv.table;
          self = ap (λ st. st.task_id) (same.state_same) ∙ inv.self;
          known_ids = same.buckets_same ∙ inv.known_ids;
          known_refs = same.refs_same ∙ inv.known_refs;
          todo_at = inl (same.todo_same);
          is_stage = omega arith;
          topo = made.topo r0 refl;
          splitters = made.splitters r0 refl;
          count = inv.count;
          each = λ j u eu. elim (ℕ_discrete x j) [
            | yes here ↦
                let there : get_elem? c.buckets x ≡ some u = ap (get_elem? c.buckets) here ∙ eu in
                let is : t ≡ u = cc in
                subst
                  (λ w.
                    BucketInv m P (posting p (x + 1) n) (inv.rs) heap' j w
                      (s'.segments w.state.task_id))
                  is
                  (subst
                    (λ l. BucketInv m P (posting p (x + 1) n) (inv.rs) heap' l t (s'.segments id))
                    here
                    (posted c p x n t (inv.rs) msg (made.new) (s'.segments id) b owes (made.brings)
                      (rw (segments-with_segment_self c.shared id q) bears')))
            | no other ↦ not_posted_bucket c inv p x n id (made.new) q at (b.self) j u other eu
          ];
          arrived = inv.arrived;
          gathers =
              rw (same.state_same, segments-with_segment c.shared id P.root_id q away)
                (RootInv-extend m P (posting p (x + 1) n) (inv.rs) c.heap (made.new) c.root.state
                  (c.shared.segments P.root_id) (length (pick_where has_ended c.buckets P.refs))
                  (RootInv_next m P p x (suc n) (x + 1) n (inv.rs) c.heap c.root.state
                    (c.shared.segments P.root_id) (length (pick_where has_ended c.buckets P.refs))
                    gathers));
        },
        omega (arith, long, short),
      )

  pub root_posts :
      (c : Threads) (inv : Inv m P c) (p : Post) (x n : ℕ)
      → inv.stage ≡ posting p x (suc n)
      → races c ≡ false
      → Goes m P c (step m Turn.root c)
  unfolding posts_from races
  root_posts c inv p x n at safe =
      let todo = posts_next (subst (λ s. RootAt m P s c.root.todo) at (inv.todo_at)) in
      let whole : x + suc n ≡ suc (P.k) = subst (IsStage m P) at (inv.is_stage) in
      let (t, et) = get_elem?-some c.buckets x (omega (arith, inv.count)) in
      let b : BucketInv m P (posting p x (suc n)) (inv.rs) c.heap x t
          (c.shared.segments t.state.task_id) =
        subst (λ s. BucketInv m P s (inv.rs) c.heap x t (c.shared.segments t.state.task_id)) at
          (inv.each x t et) in
      posts_at c inv p x n t at whole todo et b
        (posts_build m P c inv p x n (b.ref) at whole
          (ap (λ l. get_elem? l x) (inv.known_refs) ∙ b.ref_at))
        (subst
          (λ s.
            RootInv m P s (inv.rs) c.heap c.root.state (c.shared.segments P.root_id)
              (length (pick_where has_ended c.buckets P.refs)))
          at (inv.gathers))
        (ap (λ l. next_dangles l c.buckets) (sym todo) ∙ safe)
    where
      posts_next :
          RootAt m P (posting p x (suc n)) c.root.todo
          → c.root.todo ≡ posts p x ∷ posts_from p (x + 1) n (after_posts m P p)
      posts_next (inl e) = e
      posts_next (inr (after, e, f)) = absurd (cc)
