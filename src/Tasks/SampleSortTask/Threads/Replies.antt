-- ===== src/Tasks/SampleSortTask/Threads/Replies.antt =====
-- The step of a bucket that sends the root its sub-arrays.
use mathlib.Core.Path.{subst}
use mathlib.Core.List.{map-append}
use francois_gingras_master.Common.{
  ℕ, suc, ◌+◌, ◌*◌, ◌≤◌, ◌≡◌, ◌≢◌, inr, refl, sym, ap, ◌∙◌, false, some, ℤ, pos, List, [], ◌∷◌,
  ◌++◌, map, append_assoc, leb, length, length-append, set, get_elem?, done, arith,
}
use francois_gingras_master.Queue.{Queue}
use francois_gingras_master.Messages.Header.{Heap, Ptr}
use francois_gingras_master.Messages.RefTwoDimIntArrayMsg.{RefTwoDimIntArrayMsg, created}
use francois_gingras_master.Messages.Message.{Message, ref_two_dim}
use francois_gingras_master.System.{with_segment}
use francois_gingras_master.System.Delivery.{segments-with_segment_self}
use francois_gingras_master.System.Delivery.Lane.{Bears, send-Bears}
use francois_gingras_master.Tasks.BucketTask.Rounds.{Refers}
use francois_gingras_master.Tasks.BucketTask.RoundTwo.{
  send_sub_arrays, build_ref_to_root, build_ref_to_root_lem,
}
use francois_gingras_master.Tasks.SampleSortTask.{SubArrays}
use francois_gingras_master.Tasks.SampleSortTask.Correct.Rounds.{rows_of}
use francois_gingras_master.Tasks.SampleSortTask.RoundOne.{part_of}
use francois_gingras_master.Tasks.SampleSortTask.Rounds.{AllRefer, AreReplies}
use francois_gingras_master.Tasks.SampleSortTask.RoundTwo.{get_elem?-extend}
use francois_gingras_master.Tasks.SampleSortTask.Threads.{
  Machine, notifies, BucketThread, Threads, bucket, step, bucket_step, bucket_turn,
}
use francois_gingras_master.Tasks.SampleSortTask.Threads.Plan.{RootInv, early, Inv, Gathered}
use francois_gingras_master.Tasks.SampleSortTask.Threads.Setting.{
  Plan, BucketInv, Knows, reply, Pending,
}
use francois_gingras_master.Tasks.SampleSortTask.Threads.Stages.{
  signalled, replied, program, expected, has_replied, has_ended,
}
use francois_gingras_master.Tasks.SampleSortTask.Threads.Picks.{pick_where_same, steps_left-set}
use francois_gingras_master.Tasks.SampleSortTask.Threads.Frame.{
  BucketInv-extend, BucketInv-arrive, BucketInv-apart,
}
use francois_gingras_master.Tasks.SampleSortTask.Threads.Brings.{AllRefer-extend}
use francois_gingras_master.Tasks.SampleSortTask.Threads.Change.{replace_bucket, Goes}
use francois_gingras_master.Tasks.SampleSortTask.Threads.Replied.{
  created-IsReady, AllRefer-snoc, AreReplies-snoc, rs-le, root-IsMapped, replied_more,
}

module _ (m : Machine) (P : Plan) where
  -- The message that the bucket builds, for what it knows.
  builds_reply :
      (c : Threads) (i : ℕ) (t : BucketThread) (inv : Inv m P c)
      (e : get_elem? c.buckets i ≡ some t)
      → (let b = inv.each i t e in Knows m P signalled (inv.rs) i (b.ref) t.state)
      → (let mine = reply m P (inv.each i t e).ref in
          (msg : RefTwoDimIntArrayMsg) × (new : Heap) × (build_ref_to_root m.junk c.heap t.state
              m.reply_memory
            ≡ done (msg, c.heap ++ new))
          × (msg.header ≡ created (pos 6))
          × Refers (c.heap ++ new) msg (mine.0) (mine.1))
  builds_reply c i t inv e ((count, root), (size, values), split) =
      let b = inv.each i t e in
      let (here, within) = P.refs_within i (b.ref) (b.ref_at) in
      let (msg, new, built, made, refers) =
        build_ref_to_root_lem m.junk c.heap t.state m.reply_memory P.cells P.first P.rest
          (ap (λ p. get_elem? c.heap p.block) values ∙ ap (get_elem? c.heap) here ∙ inv.data_at)
          (rw (size, values) within) split (count ∙ ap suc (sym (P.splits))) in
      let rows : ℕ × Ptr → List (List ℤ) = λ r. rows_of P.first P.rest (part_of P.cells r) in
      let refers_with : ℕ × Ptr → Type 0 =
        λ r. Refers (c.heap ++ new) msg (map length (rows r)) (rows r) in
      (
        msg,
        new,
        built,
        made,
        subst (λ p. refers_with ((b.ref).0, p)) values
            (subst (λ n. refers_with (n, t.state.data_ref)) size refers),
      )

  -- The bucket that has replied.
  has_sent :
      (c : Threads) (i : ℕ) (t : BucketThread) (inv : Inv m P c)
      (e : get_elem? c.buckets i ≡ some t)
      → (rs' : List SubArrays) (new : Heap)
      → (let b = inv.each i t e in Knows m P signalled (inv.rs) i (b.ref) t.state)
      → (let b = inv.each i t e in
          Pending m P c.heap (inv.rs) i (b.ref) (b.ns) (expected signalled) (b.future))
      → t.todo ≡ program signalled
      → (got : List RefTwoDimIntArrayMsg) → Gathered m P (inv.stage) c.root.state got
      → (q : Queue Message) → P.root_id ≢ t.state.task_id
      → BucketInv m P
          (inv.stage)
          rs'
          (c.heap ++ new)
          i
          (record { state = t.state; todo = notifies ∷ program replied })
          ((with_segment c.shared P.root_id q).segments t.state.task_id)
  has_sent c i t inv e rs' new known pend todo got gathered q away =
      let b = inv.each i t e in
      let t' : BucketThread = record { state = t.state; todo = notifies ∷ program replied } in
      let here : BucketInv m P (inv.stage) (inv.rs) c.heap i t'
          (c.shared.segments t.state.task_id) =
        record {
          at = replied;
          todo_at = inr (refl, refl);
          self = b.self;
          ref = b.ref;
          ref_at = b.ref_at;
          knows = known.0.1;
          ns = b.ns;
          future = b.future;
          used = b.used;
          bears = b.bears;
          budget = b.budget;
          owed = b.owed;
          pending = pend;
        } in
      BucketInv-apart m P (inv.stage) rs' (c.heap ++ new) i t' c.shared P.root_id q away (
        BucketInv-arrive m P (inv.stage) (inv.rs) rs' (c.heap ++ new) i t'
          (c.shared.segments t.state.task_id) c.root.state got gathered
          (BucketInv-extend m P (inv.stage) (inv.rs) c.heap new i t'
            (c.shared.segments t.state.task_id) here))

  pub sends_early :
      (c : Threads) (i : ℕ) (t : BucketThread) (inv : Inv m P c)
      (e : get_elem? c.buckets i ≡ some t)
      → (let b = inv.each i t e in
          Knows m P signalled (inv.rs) i (b.ref) t.state
          × Pending m P c.heap (inv.rs) i (b.ref) (b.ns) (expected signalled) (b.future))
      → t.todo ≡ program signalled
      → (got there : List RefTwoDimIntArrayMsg) (used : ℕ) → AllRefer c.heap (got ++ there) (inv.rs)
      → AreReplies there
      → Bears (c.shared.segments P.root_id) (map ref_two_dim there) used
      → used ≤ P.room + 100 * length (inv.rs)
      → Gathered m P (inv.stage) c.root.state got
      → Goes m P c (step m (bucket i) c)
  unfolding step bucket_step bucket_turn send_sub_arrays
  sends_early c i t inv e (known, pend) todo got there used refer tagged bears bound gathered =
      let b = inv.each i t e in
      let mine = reply m P (b.ref) in
      let rs' = inv.rs ++ (mine ∷ []) in
      let (msg, new, built, made, refers) = builds_reply c i t inv e known in
      let limits = rs-le m P c inv in
      let small = P.few in
      let roomy = P.roomy in
      let (q, sent, bears') =
        send-Bears c.shared c.process (m.at P.root_id) (P.base P.root_id) (ref_two_dim msg)
          P.root_id (map ref_two_dim there) used (used + 72) (root-IsMapped m P c inv) bears
          (created-IsReady msg (pos 6) made) (omega (arith, ap (λ h. h.msg_size) made))
          (omega arith) in
      let t' : BucketThread = record { state = t.state; todo = notifies ∷ program replied } in
      let s' = with_segment c.shared P.root_id q in
      let away : P.root_id ≢ t.state.task_id = λ z. P.apart i t.state.task_id (b.self) (sym z) in
      let less = steps_left-set c.buckets i t t' e in
      let size : length t.todo ≡ 4 = ap length todo in
      let was : has_replied t ≡ false = ap (λ l. leb (length l) 3) todo in
      let running : has_ended t ≡ false = ap (λ l. leb (length l) 0) todo in
      let carried : (j : ℕ) (u : BucketThread)
          → P.root_id ≢ u.state.task_id
          → BucketInv m P (inv.stage) (inv.rs) c.heap j u (c.shared.segments u.state.task_id)
          → BucketInv m P (inv.stage) rs' (c.heap ++ new) j u (s'.segments u.state.task_id) =
        λ j u other bu.
          BucketInv-apart m P (inv.stage) rs' (c.heap ++ new) j u c.shared P.root_id q other (
            BucketInv-arrive m P (inv.stage) (inv.rs) rs' (c.heap ++ new) j u
              (c.shared.segments u.state.task_id) c.root.state got gathered
              (BucketInv-extend m P (inv.stage) (inv.rs) c.heap new j u
                (c.shared.segments u.state.task_id) bu)) in
      (
        record c { heap = c.heap ++ new; shared = s'; buckets = set c.buckets i t' },
        rw (e, todo, built, known.0.1, sent) refl,
        replace_bucket m P c i t' inv rs' (c.heap ++ new) s'
            (get_elem?-extend c.heap new P.block P.cells (inv.data_at))
            (has_sent c i t inv e rs' new known pend todo got gathered q away)
            (λ j u other old.
              let bu = inv.each j u old in
              carried j u (λ z. P.apart j u.state.task_id (bu.self) (sym z)) bu)
            (replied_more m P c i t t' inv e was refl)
            (subst
              (λ l.
                RootInv m P (inv.stage) rs' (c.heap ++ new) c.root.state (s'.segments P.root_id)
                  (length l))
              (sym (pick_where_same has_ended c.buckets P.refs i t t' e (sym running)))
              (early got (there ++ (msg ∷ [])) (used + 72)
                (subst (λ l. AllRefer (c.heap ++ new) l rs') (append_assoc got there (msg ∷ []))
                  (AllRefer-snoc (c.heap ++ new) (got ++ there) (inv.rs) msg (mine.0) (mine.1)
                    (AllRefer-extend c.heap new (got ++ there) (inv.rs) refer) refers))
                (AreReplies-snoc there msg tagged (ap (λ h. h.tag) made))
                (rw
                  (
                    segments-with_segment_self c.shared P.root_id q,
                    map-append ref_two_dim there (msg ∷ []),
                  )
                  bears')
                (omega (arith, length-append (inv.rs) (mine ∷ []))) gathered)),
        omega (arith, less, size),
      )
