-- ===== src/Tasks/SampleSortTask/Threads/Done.antt =====
-- The last step of a bucket: it sorts its values and tells the root that it is done.
use mathlib.Core.Path.{subst}
use mathlib.Core.List.{Permᴰ, map-append}
use francois_gingras_master.Common.{
  ℕ, suc, ◌+◌, ◌*◌, ◌≤◌, ◌≡◌, ◌≢◌, inl, refl, sym, ap, true, false, some, pos, List, [], ◌∷◌, ◌++◌,
  map, leb, length, length-append, set, get_elem?, arith,
}
use francois_gingras_master.Messages.DoneMsg.{DoneMsg}
use francois_gingras_master.Messages.DoneMsg
use francois_gingras_master.Messages.RefTwoDimIntArrayMsg.{RefTwoDimIntArrayMsg}
use francois_gingras_master.Messages.Message.{signal}
use francois_gingras_master.Messages.Message.Law.{IsReady}
use francois_gingras_master.System.{with_segment}
use francois_gingras_master.System.Delivery.{segments-with_segment_self}
use francois_gingras_master.System.Delivery.Lane.{Bears, send-Bears}
use francois_gingras_master.Tasks.BucketTask.{final_sort}
use francois_gingras_master.Tasks.BucketTask.Receive.{Bucket}
use francois_gingras_master.Tasks.BucketTask.RoundTwo.{finish}
use francois_gingras_master.Tasks.SampleSortTask.Rounds.{AllRefer}
use francois_gingras_master.Tasks.SampleSortTask.Threads.{
  Machine, BucketThread, Threads, bucket, step, bucket_step, bucket_turn, the_topology,
  the_reference, the_splitters, the_signal, the_column,
}
use francois_gingras_master.Tasks.SampleSortTask.Threads.Plan.{late, Finished, AreDone, Inv}
use francois_gingras_master.Tasks.SampleSortTask.Threads.Setting.{
  Plan, Rebuilds, BucketInv, Knows, reply,
}
use francois_gingras_master.Tasks.SampleSortTask.Threads.Stages.{
  rebuilt, ended, program, has_replied, has_ended, pick_where, RootStage, posting, clearing,
  collecting, ending,
}
use francois_gingras_master.Tasks.SampleSortTask.Threads.Picks.{
  pick_where_same, pick_where_more, pick_where-le, length-permᴰ, steps_left-set,
}
use francois_gingras_master.Tasks.SampleSortTask.Threads.Frame.{BucketInv-apart}
use francois_gingras_master.Tasks.SampleSortTask.Threads.Change.{replace_bucket, Goes}
use francois_gingras_master.Tasks.SampleSortTask.Threads.Replied.{root-IsMapped}

pub AreDone-snoc :
    (m : Machine) (P : Plan) (ds : List DoneMsg) (d : DoneMsg)
    → AreDone m P ds
    → d.tag ≡ pos 8
    → AreDone m P (ds ++ (d ∷ []))
AreDone-snoc m P [] d a e = (e, tt)
AreDone-snoc m P (x ∷ ds) d (b, a) e = (b, AreDone-snoc m P ds d a e)

pub Finished-more :
    (m : Machine) (P : Plan) (stage : RootStage) (there total there' total' : ℕ)
    → there' ≡ suc there
    → total' ≡ suc total
    → Finished m P stage there total
    → Finished m P stage there' total'
Finished-more m P (posting the_column x n) there total there' total' e d f = omega arith
Finished-more m P (ending n) there total there' total' e d f = omega arith
Finished-more m P (posting the_topology x n) there total there' total' e d f = absurd f
Finished-more m P (posting the_reference x n) there total there' total' e d f = absurd f
Finished-more m P (posting the_splitters x n) there total there' total' e d f = absurd f
Finished-more m P (posting the_signal x n) there total there' total' e d f = absurd f
Finished-more m P clearing there total there' total' e d f = absurd f
Finished-more m P (collecting n) there total there' total' e d f = absurd f

-- The message that says that a bucket is done.
abbrev pub done_msg : Machine → DoneMsg
done_msg m = record (DoneMsg.create (pos 8) m.signal_memory) { success = pos 1 }

pub done_msg-IsReady : (m : Machine) → IsReady (signal (done_msg m))
unfolding DoneMsg.create
done_msg-IsReady m = record {
  sound = record { classed = refl; sized = omega arith };
  bound = refl;
  small = omega arith;
  owns = tt;
}

module _ (m : Machine) (P : Plan) where
  -- The bucket when it has sorted its values.
  finished_bucket :
      (c : Threads) (i : ℕ) (t : BucketThread) (inv : Inv m P c)
      (e : get_elem? c.buckets i ≡ some t)
      → Rebuilds m P (inv.rs) i t.state.final_data_values
      → (let b = inv.each i t e in b.ns ≡ [])
      → (let b = inv.each i t e in b.future ≡ [])
      → BucketInv m P
          (inv.stage)
          (inv.rs)
          c.heap
          i
          (record {
            state = record (t.state) {
              final_data_values = final_sort m.lib t.state.final_data_values;
            };
            todo = [];
          })
          (c.shared.segments t.state.task_id)
  finished_bucket c i t inv e outs none_there owed_none =
      let b = inv.each i t e in
      record {
        at = ended;
        todo_at = inl refl;
        self = b.self;
        ref = b.ref;
        ref_at = b.ref_at;
        knows = (t.state.final_data_values, outs, refl);
        ns = b.ns;
        future = b.future;
        used = b.used;
        bears = b.bears;
        budget = b.budget;
        owed = b.owed;
        pending = rw (none_there, owed_none) refl;
      }

  pub finishes_late :
      (c : Threads) (i : ℕ) (t : BucketThread) (inv : Inv m P c)
      (e : get_elem? c.buckets i ≡ some t)
      → (let b = inv.each i t e in
          Knows m P rebuilt (inv.rs) i (b.ref) t.state × (b.ns ≡ []) × (b.future ≡ []))
      → t.todo ≡ program rebuilt
      → (got : List RefTwoDimIntArrayMsg) (there : List DoneMsg) (used : ℕ)
      → length (inv.rs) ≡ suc (P.k)
      → AllRefer c.heap got (inv.rs)
      → c.root.state.buckets_values_arr ≡ map some got
      → AreDone m P there
      → Bears (c.shared.segments P.root_id) (map signal there) used
      → (let total = length (pick_where has_ended c.buckets P.refs) in
          (used ≤ P.room + 100 * (suc (P.k) + total))
          × Finished m P (inv.stage) (length there) total)
      → Goes m P c (step m (bucket i) c)
  unfolding step bucket_step bucket_turn finish DoneMsg.create
  finishes_late c i t inv e ((root, outs), none_there, owed_none) todo got there used full refer arr
        dones bears (bound, f) =
      let b = inv.each i t e in
      let msg = done_msg m in
      let small = P.few in
      let roomy = P.roomy in
      let total = length (pick_where has_ended c.buckets P.refs) in
      let few = pick_where-le has_ended c.buckets P.refs in
      let (q, sent, bears') =
        send-Bears c.shared c.process (m.at P.root_id) (P.base P.root_id) (signal msg) P.root_id
          (map signal there) used (used + 56) (root-IsMapped m P c inv) bears (done_msg-IsReady m)
          (omega arith) (omega (arith, few, P.referenced)) in
      let st' : Bucket = record (t.state) {
        final_data_values = final_sort m.lib t.state.final_data_values;
      } in
      let t' : BucketThread = record { state = st'; todo = [] } in
      let s' = with_segment c.shared P.root_id q in
      let away : P.root_id ≢ t.state.task_id = λ z. P.apart i t.state.task_id (b.self) (sym z) in
      let less = steps_left-set c.buckets i t t' e in
      let size : length t.todo ≡ 1 = ap length todo in
      let was : has_ended t ≡ false = ap (λ l. leb (length l) 0) todo in
      let replied_before : has_replied t ≡ true = ap (λ l. leb (length l) 3) todo in
      let more = pick_where_more has_ended c.buckets P.refs i t t' (b.ref) e (b.ref_at) was refl in
      let counted : length (pick_where has_ended (set c.buckets i t') P.refs) ≡ suc total =
        length-permᴰ more in
      (
        record c { shared = s'; buckets = set c.buckets i t' },
        rw (e, todo, root, sent) refl,
        replace_bucket m P c i t' inv (inv.rs) c.heap s' (inv.data_at)
            (BucketInv-apart m P (inv.stage) (inv.rs) c.heap i t' c.shared P.root_id q away
              (finished_bucket c i t inv e outs none_there owed_none))
            (λ j u other old.
              let bu = inv.each j u old in
              BucketInv-apart m P (inv.stage) (inv.rs) c.heap j u c.shared P.root_id q
                (λ z. P.apart j u.state.task_id (bu.self) (sym z)) bu)
            (subst (λ l. Permᴰ l (inv.rs))
              (sym (
                pick_where_same has_replied c.buckets (map (reply m P) P.refs) i t t' e
                  (sym replied_before)))
              (inv.arrived))
            (late got (there ++ (msg ∷ [])) (used + 56) full refer arr
              (AreDone-snoc m P there msg dones refl)
              (rw
                (
                  segments-with_segment_self c.shared P.root_id q,
                  map-append signal there (msg ∷ []),
                )
                bears')
              (omega (arith, counted))
              (Finished-more m P (inv.stage) (length there) total (length (there ++ (msg ∷ [])))
                (length (pick_where has_ended (set c.buckets i t') P.refs))
                (omega (arith, length-append there (msg ∷ []))) counted f)),
        omega (arith, less, size),
      )
