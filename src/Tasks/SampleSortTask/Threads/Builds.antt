-- ===== src/Tasks/SampleSortTask/Threads/Builds.antt =====
-- The messages that the root sends in the first round.
use mathlib.Core.Path.{subst}
use francois_gingras_master.Common.{
  ℕ, suc, ◌+◌, ◌≤◌, ◌<◌, ◌≡◌, refl, ap, some, pos, List, [], ◌∷◌, ◌++◌, map, append-nil, get_elem?,
  done, arith,
}
use francois_gingras_master.Messages.Header.{Heap, Ptr}
use francois_gingras_master.Messages.RefIntArrayMsg
use francois_gingras_master.Messages.Message.{Message, topology, ref_int_array, int_array, header}
use francois_gingras_master.Messages.Message.Law.{IsReady, after}
use francois_gingras_master.Tasks.SampleSortTask.{SubArrays}
use francois_gingras_master.Tasks.SampleSortTask.Correct.Rounds.{replies_of}
use francois_gingras_master.Tasks.SampleSortTask.RoundOne.{part_of}
use francois_gingras_master.Tasks.SampleSortTask.Threads.{
  Machine, Post, the_topology, the_reference, the_splitters, RootThread, Threads, build_post,
  keep_sent,
}
use francois_gingras_master.Tasks.SampleSortTask.Threads.Plan.{IsTopology, IsSplitters, Inv}
use francois_gingras_master.Tasks.SampleSortTask.Threads.Setting.{Plan, Brings, reply}
use francois_gingras_master.Tasks.SampleSortTask.Threads.Stages.{RootStage, posting}

module _ (m : Machine) (P : Plan) where
  pub replies_of-map :
      (rs : List (ℕ × Ptr))
      → replies_of P.first P.rest (map (part_of P.cells) rs) ≡ map (reply m P) rs
  replies_of-map [] = refl
  replies_of-map (r ∷ rs) = ap (λ l. reply m P r ∷ l) (replies_of-map rs)

  -- What a post to bucket x brings there, and what becomes of the shared message objects.
  pub record Builds (c : Threads) (rs : List SubArrays) (p : Post) (x n : ℕ) (r : ℕ × Ptr)
      : Type 0 where
    pub msg : Message
    pub new : Heap
    pub built : build_post m p x c.root c.heap ≡ done (msg, c.heap ++ new)
    pub brings : Brings m P (c.heap ++ new) rs x r p msg
    pub ready : IsReady msg
    pub sized : (header msg).msg_size ≤ 50000
    pub topo :
        (r : RootThread)
        → r.topo_msg ≡ c.root.topo_msg
        → IsTopology m P (posting p (x + 1) n) ((keep_sent m p (after msg) r).topo_msg)
    pub splitters :
        (r : RootThread)
        → r.splitters_msg ≡ c.root.splitters_msg
        → IsSplitters m P ((keep_sent m p (after msg) r).splitters_msg)

  -- The topology has grown by its array of ids.
  pub topology_after :
      (x n : ℕ) (msg : Message)
      → x < 100
      → IsTopology m P (posting the_topology x (suc n)) msg
      → IsTopology m P (posting the_topology (x + 1) n) (after msg)
  unfolding after
  topology_after x n (topology t) lt i =
      let (tag, count, root, long) = i.brings [] [] 0 (0, record { block = 0; offset = 0 }) in
      let old = i.sized x (suc n) refl in
      let few = P.few in
      let enough = i.ready.sound.sized in
      record {
        ready = record {
          sound = record { classed = i.ready.sound.classed; sized = omega arith };
          bound = i.ready.bound;
          small = omega arith;
          owns = i.ready.owns;
        };
        brings = λ heap rs j r. (tag, count, root, long);
        sized = λ y k e. let same : x + 1 ≡ y = cc in omega arith;
      }
  topology_after x n msg lt i = absurd (i.brings [] [] 0 (0, record { block = 0; offset = 0 }))

  -- At another stage the size of the topology no longer matters.
  pub topology_kept :
      (stage : RootStage) (p : Post) (x n : ℕ) (msg : Message)
      → (p ≡ the_topology → ⊥)
      → IsTopology m P stage msg
      → IsTopology m P (posting p x n) msg
  topology_kept stage p x n msg other i = record {
    ready = i.ready;
    brings = i.brings;
    sized = λ y k e. absurd (other (cc));
  }

  pub Builds-topology :
      (c : Threads) (inv : Inv m P c) (x n : ℕ) (r : ℕ × Ptr)
      → inv.stage ≡ posting the_topology x (suc n)
      → x < 100
      → Builds c (inv.rs) the_topology x n r
  unfolding build_post keep_sent
  Builds-topology c inv x n r at lt =
      let i = subst (λ s. IsTopology m P s c.root.topo_msg) at (inv.topo) in
      record {
        msg = c.root.topo_msg;
        new = [];
        built = rw (append-nil c.heap) refl;
        brings = i.brings (c.heap ++ []) (inv.rs) x r;
        ready = i.ready;
        sized = omega (arith, i.sized x (suc n) refl);
        topo = λ r e. topology_after x n c.root.topo_msg lt i;
        splitters = λ r e. rw e (inv.splitters);
      }

  pub Builds-reference :
      (c : Threads) (inv : Inv m P c) (x n : ℕ) (r : ℕ × Ptr)
      → get_elem? c.root.refs x ≡ some r
      → Builds c (inv.rs) the_reference x n r
  unfolding build_post keep_sent RefIntArrayMsg.create RefIntArrayMsg.set_values
  Builds-reference c inv x n r at =
      let t =
        RefIntArrayMsg.set_values (RefIntArrayMsg.create (pos 3) m.reference_memory) (r.0) (r.1) in
      record {
        msg = ref_int_array t;
        new = [];
        built = rw (append-nil c.heap, at) refl;
        brings = (refl, refl, refl);
        ready = record {
          sound = record { classed = refl; sized = omega arith };
          bound = refl;
          small = omega arith;
          owns = tt;
        };
        sized = omega arith;
        topo = λ r e. rw e (
            topology_kept (inv.stage) the_reference (x + 1) n c.root.topo_msg (λ z. cc) (inv.topo));
        splitters = λ r e. rw e (inv.splitters);
      }

  pub after_splitters : (msg : Message) → IsSplitters m P msg → after msg ≡ msg
  unfolding after
  after_splitters (int_array t) i = refl
  after_splitters (topology t) i = absurd (i.brings [] [] 0 (0, record { block = 0; offset = 0 }))
  after_splitters msg i = refl

  pub Builds-splitters :
      (c : Threads) (inv : Inv m P c) (x n : ℕ) (r : ℕ × Ptr)
      → Builds c (inv.rs) the_splitters x n r
  unfolding build_post keep_sent
  Builds-splitters c inv x n r =
      let i = inv.splitters in
      record {
        msg = c.root.splitters_msg;
        new = [];
        built = rw (append-nil c.heap) refl;
        brings = i.brings (c.heap ++ []) (inv.rs) x r;
        ready = i.ready;
        sized = i.sized;
        topo = λ r e. rw e (
            topology_kept (inv.stage) the_splitters (x + 1) n c.root.topo_msg (λ z. cc) (inv.topo));
        splitters = λ r e. rw (after_splitters c.root.splitters_msg i) i;
      }
