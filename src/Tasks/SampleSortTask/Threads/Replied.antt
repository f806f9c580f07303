-- ===== src/Tasks/SampleSortTask/Threads/Replied.antt =====
-- How many buckets of a sample sort have sent their reply.
use mathlib.Core.Path.{subst}
use mathlib.Core.List.{Permᴰ}
use mathlib.Core.List.Permᴰ
use francois_gingras_master.Common.{
  ℕ, zero, suc, ◌≤◌, ◌≡◌, refl, sym, ap, ◌∙◌, true, false, some, ℤ, pos, List, [], ◌∷◌, ◌++◌, map,
  append-nil, length, length-map, set, get_elem?, arith,
}
use francois_gingras_master.Messages.Header.{Heap}
use francois_gingras_master.Messages.RefTwoDimIntArrayMsg.{RefTwoDimIntArrayMsg, created}
use francois_gingras_master.Messages.Message.{ref_two_dim}
use francois_gingras_master.Messages.Message.Law.{IsReady}
use francois_gingras_master.System.Delivery.{IsMapped}
use francois_gingras_master.Tasks.BucketTask.Rounds.{Refers}
use francois_gingras_master.Tasks.SampleSortTask.{SubArrays}
use francois_gingras_master.Tasks.SampleSortTask.Rounds.{AllRefer, AreReplies}
use francois_gingras_master.Tasks.SampleSortTask.Threads.{Machine, BucketThread, Threads}
use francois_gingras_master.Tasks.SampleSortTask.Threads.Plan.{Inv}
use francois_gingras_master.Tasks.SampleSortTask.Threads.Setting.{Plan, reply}
use francois_gingras_master.Tasks.SampleSortTask.Threads.Stages.{has_replied, pick_where}
use francois_gingras_master.Tasks.SampleSortTask.Threads.Picks.{
  pick_where_more, pick_where_all, pick_where-le, length-permᴰ,
}

-- A message with the header that its constructor gives it is ready.
pub created-IsReady :
    (t : RefTwoDimIntArrayMsg) (tag : ℤ) → t.header ≡ created tag → IsReady (ref_two_dim t)
created-IsReady t tag e = record {
  sound = record { classed = rw e refl; sized = rw e (omega arith) };
  bound = rw e refl;
  small = rw e (omega arith);
  owns = tt;
}

pub get_elem?-map_at {ℓ κ} :
    {A : Type ℓ} {B : Type κ} (f : A → B) (l : List A) (i : ℕ) (a : A)
    → get_elem? l i ≡ some a
    → get_elem? (map f l) i ≡ some (f a)
get_elem?-map_at f [] i a e = absurd (cc)
get_elem?-map_at f (x ∷ l) zero a e = ap (λ y. some (f y)) (cc)
get_elem?-map_at f (x ∷ l) (suc i) a e = get_elem?-map_at f l i a e

pub AllRefer-snoc :
    (heap : Heap) (ms : List RefTwoDimIntArrayMsg) (rs : List SubArrays) (t : RefTwoDimIntArrayMsg)
    (counts : List ℕ) (rows : List (List ℤ))
    → AllRefer heap ms rs
    → Refers heap t counts rows
    → AllRefer heap (ms ++ (t ∷ [])) (rs ++ ((counts, rows) ∷ []))
AllRefer-snoc heap [] [] t counts rows a r = (r, tt)
AllRefer-snoc heap [] (x ∷ rs) t counts rows a r = absurd a
AllRefer-snoc heap (y ∷ ms) [] t counts rows a r = absurd a
AllRefer-snoc heap (y ∷ ms) ((cs, vs) ∷ rs) t counts rows (b, a) r =
    (b, AllRefer-snoc heap ms rs t counts rows a r)

pub AreReplies-snoc :
    (ms : List RefTwoDimIntArrayMsg) (t : RefTwoDimIntArrayMsg)
    → AreReplies ms
    → t.tag ≡ pos 6
    → AreReplies (ms ++ (t ∷ []))
AreReplies-snoc [] t a e = (e, tt)
AreReplies-snoc (x ∷ ms) t (b, a) e = (b, AreReplies-snoc ms t a e)

module _ (m : Machine) (P : Plan) where
  pub rs-le : (c : Threads) (inv : Inv m P c) → length (inv.rs) ≤ suc (P.k)
  rs-le c inv = omega (
    arith,
    length-permᴰ (inv.arrived),
    pick_where-le has_replied c.buckets (map (reply m P) P.refs),
    length-map (reply m P) P.refs,
    P.referenced,
  )

  pub root-IsMapped : (c : Threads) → Inv m P c → IsMapped c.process P.root_id (P.base P.root_id)
  root-IsMapped c inv = rw (inv.table) (P.mapped_root)

  -- When all replies are in, every bucket has sent its own.
  pub all_replied :
      (c : Threads) (inv : Inv m P c)
      → length (inv.rs) ≡ suc (P.k)
      → (pick_where has_replied c.buckets (map (reply m P) P.refs) ≡ map (reply m P) P.refs)
        × ((i : ℕ) (t : BucketThread) → get_elem? c.buckets i ≡ some t → has_replied t ≡ true)
  all_replied c inv full =
      let size = length-map (reply m P) P.refs in
      pick_where_all has_replied c.buckets (map (reply m P) P.refs)
        (inv.count ∙ sym (size ∙ P.referenced))
        (omega (arith, length-permᴰ (inv.arrived), size, P.referenced, full))

  -- Another reply behind the others.
  pub replied_more :
      (c : Threads) (i : ℕ) (t t' : BucketThread) (inv : Inv m P c)
      (e : get_elem? c.buckets i ≡ some t)
      → has_replied t ≡ false
      → has_replied t' ≡ true
      → (let mine = reply m P (inv.each i t e).ref in
          Permᴰ
            (pick_where has_replied (set c.buckets i t') (map (reply m P) P.refs))
            (inv.rs ++ (mine ∷ [])))
  replied_more c i t t' inv e before now =
      let b = inv.each i t e in
      let mine = reply m P (b.ref) in
      let more =
        pick_where_more has_replied c.buckets (map (reply m P) P.refs) i t t' mine e
          (get_elem?-map_at (reply m P) P.refs i (b.ref) (b.ref_at)) before now in
      let moved : Permᴰ (inv.rs ++ (mine ∷ [])) (mine ∷ inv.rs) =
        subst (λ l. Permᴰ (inv.rs ++ (mine ∷ [])) (mine ∷ l)) (append-nil (inv.rs))
          (Permᴰ.middle mine (inv.rs) []) in
      Permᴰ.trans more (Permᴰ.trans (Permᴰ.cons refl (inv.arrived)) (Permᴰ.symm moved))
