-- ===== src/Tasks/SampleSortTask/Threads/Posts.antt =====
-- The messages that the root posts to its buckets.
use mathlib.Core.Path.{subst}
use mathlib.Core.List.{Permᴰ}
use francois_gingras_master.Common.{
  ℕ, suc, ◌+◌, ◌<◌, ◌≡◌, refl, sym, ap, ◌∙◌, some, ℤ, pos, List, [], ◌∷◌, map, append-nil, length,
  get_elem?, done, arith,
}
use francois_gingras_master.Messages.Header.{Ptr}
use francois_gingras_master.Messages.DoneMsg
use francois_gingras_master.Messages.RefTwoDimIntArrayMsg.{RefTwoDimIntArrayMsg}
use francois_gingras_master.Messages.Message.{signal, ref_two_dim}
use francois_gingras_master.Tasks.BucketTask.{rebuild}
use francois_gingras_master.Tasks.SampleSortTask.{column}
use francois_gingras_master.Tasks.SampleSortTask.Merge.{AllReplies, column-rebuild}
use francois_gingras_master.Tasks.SampleSortTask.Correct.Rounds.{
  replies_of, replies_of-AllReplies, AllReplies-perm,
}
use francois_gingras_master.Tasks.SampleSortTask.RoundOne.{part_of}
use francois_gingras_master.Tasks.SampleSortTask.Rounds.{AllRefer}
use francois_gingras_master.Tasks.SampleSortTask.RoundThree.{build_ref_to_bucket_lem}
use francois_gingras_master.Tasks.SampleSortTask.Threads.{
  Machine, Post, the_topology, the_reference, the_splitters, the_signal, the_column, Threads,
  build_post, keep_sent,
}
use francois_gingras_master.Tasks.SampleSortTask.Threads.Plan.{RootInv, early, late, Inv}
use francois_gingras_master.Tasks.SampleSortTask.Threads.Setting.{Plan}
use francois_gingras_master.Tasks.SampleSortTask.Threads.Stages.{posting, pick_where, has_ended}
use francois_gingras_master.Tasks.SampleSortTask.Threads.Replied.{all_replied, created-IsReady}
use francois_gingras_master.Tasks.SampleSortTask.Threads.Builds.{
  replies_of-map, Builds, topology_kept, Builds-topology, Builds-reference, Builds-splitters,
}

module _ (m : Machine) (P : Plan) where
  Builds-signal :
      (c : Threads) (inv : Inv m P c) (x n : ℕ) (r : ℕ × Ptr)
      → Builds m P c (inv.rs) the_signal x n r
  unfolding build_post keep_sent DoneMsg.create
  Builds-signal c inv x n r = record {
    msg = signal (record (DoneMsg.create (pos 5) m.signal_memory) { success = pos 1 });
    new = [];
    built = rw (append-nil c.heap) refl;
    brings = refl;
    ready = record {
      sound = record { classed = refl; sized = omega arith };
      bound = refl;
      small = omega arith;
      owns = tt;
    };
    sized = omega arith;
    topo = λ r e.
        rw e
          (topology_kept m P (inv.stage) the_signal (x + 1) n c.root.topo_msg (λ z. cc) (inv.topo));
    splitters = λ r e. rw e (inv.splitters);
  }

  -- Every column can be rebuilt once all replies are in.
  columns :
      (c : Threads) (inv : Inv m P c) (x : ℕ)
      → length (inv.rs) ≡ suc (P.k)
      → x < suc (P.k)
      → (cs : List ℕ) × (vs : List (List ℤ)) × (out : List ℤ) × (column x (inv.rs) ≡ done (cs, vs))
        × (rebuild cs vs ≡ done out)
  columns c inv x full lt =
      let k = suc (length (P.rest)) in
      let same = replies_of-map m P (P.refs) in
      let perm : Permᴰ (replies_of P.first P.rest (map (part_of P.cells) P.refs)) (inv.rs) =
        subst (λ l. Permᴰ l (inv.rs)) ((all_replied m P c inv full).0 ∙ sym same) (inv.arrived) in
      let all : AllReplies k (P.first ∷ P.rest) (inv.rs) =
        AllReplies-perm k (P.first ∷ P.rest) perm
          (replies_of-AllReplies P.first P.rest (map (part_of P.cells) P.refs)) in
      let (cs, vs, out, e, b, g) =
        column-rebuild k (P.first ∷ P.rest) x (inv.rs) all (omega (arith, P.splits)) in
      (cs, vs, out, e, b)

  Builds-column :
      (c : Threads) (inv : Inv m P c) (x n : ℕ) (r : ℕ × Ptr)
      → x < suc (P.k)
      → length (inv.rs) ≡ suc (P.k)
      → (got : List RefTwoDimIntArrayMsg) → AllRefer c.heap got (inv.rs)
      → c.root.state.buckets_values_arr ≡ map some got
      → Builds m P c (inv.rs) the_column x n r
  unfolding build_post keep_sent
  Builds-column c inv x n r lt full got refer arr =
      let (cs, vs, out, e, b) = columns c inv x full lt in
      let (t, new, run, made, refers) =
        build_ref_to_bucket_lem c.heap x got (inv.rs) cs vs m.reply_memory refer e in
      record {
        msg = ref_two_dim t;
        new = new;
        built = rw (arr, run) refl;
        brings = (ap (λ h. h.tag) made, (cs, vs, out, e, b, refers));
        ready = created-IsReady t (pos 7) made;
        sized = omega (arith, ap (λ h. h.msg_size) made);
        topo = λ r e. rw e (
            topology_kept m P (inv.stage) the_column (x + 1) n c.root.topo_msg (λ z. cc)
              (inv.topo));
        splitters = λ r e. rw e (inv.splitters);
      }

  -- Whatever is next to be posted can be built.
  pub posts_build :
      (c : Threads) (inv : Inv m P c) (p : Post) (x n : ℕ) (r : ℕ × Ptr)
      → inv.stage ≡ posting p x (suc n)
      → x + suc n ≡ suc (P.k)
      → get_elem? c.root.refs x ≡ some r
      → Builds m P c (inv.rs) p x n r
  posts_build c inv the_topology x n r at size e =
      let few = P.few in Builds-topology m P c inv x n r at (omega arith)
  posts_build c inv the_reference x n r at size e = Builds-reference m P c inv x n r e
  posts_build c inv the_splitters x n r at size e = Builds-splitters m P c inv x n r
  posts_build c inv the_signal x n r at size e = Builds-signal c inv x n r
  posts_build c inv the_column x n r at size e = from_root (
      subst
        (λ s.
          RootInv m P s (inv.rs) c.heap c.root.state (c.shared.segments P.root_id)
            (length (pick_where has_ended c.buckets P.refs)))
        at (inv.gathers))
    where
      from_root :
          RootInv m P
            (posting the_column x (suc n))
            (inv.rs)
            c.heap
            c.root.state
            (c.shared.segments P.root_id)
            (length (pick_where has_ended c.buckets P.refs))
          → Builds m P c (inv.rs) the_column x n r
      from_root (early got there used refer tagged bears bound g) = absurd g
      from_root (late got there used full refer arr dones bears bound f) =
          Builds-column c inv x n r (omega arith) full got refer arr
