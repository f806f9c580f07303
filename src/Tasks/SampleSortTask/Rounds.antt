-- ===== src/Tasks/SampleSortTask/Rounds.antt =====
-- What the root gets from the buckets and refers on to them.
use francois_gingras_master.Common.{
  ℕ, zero, suc, ◌+◌, ◌≡◌, refl, sym, ap, ◌∙◌, none, some, ℤ, pos, List, [], ◌∷◌, ◌++◌, map,
  replicate, length, length-append, length-map, get_elem?-append, set-append, set, append_assoc,
  append-nil, get_elem?, done, arith,
}
use mathlib.Core.List.{map-append}
use francois_gingras_master.Messages.Header.{Heap, Ptr}
use francois_gingras_master.Messages.RefTwoDimIntArrayMsg.{RefTwoDimIntArrayMsg}
use francois_gingras_master.Messages.Message.{Message, ref_two_dim}
use francois_gingras_master.System.{Shared, Process}
use francois_gingras_master.System.Delivery.{Carries, IsMapped}
use francois_gingras_master.Tasks.Dispatch.{served, receive_by-handles, receives, receives_cons}
use francois_gingras_master.Tasks.SampleSortTask.{SubArrays}
use francois_gingras_master.Tasks.BucketTask.Rounds.{AreRows, Refers}
use francois_gingras_master.Tasks.SampleSortTask.Receive.{
  SampleSort, reaction, handle_sub_array, clear_replies,
}

-- All are replies of buckets.
abbrev pub AreReplies : List RefTwoDimIntArrayMsg → Type 0
AreReplies [] = Unit {0}
AreReplies (m ∷ ms) = (m.tag ≡ pos 6) × AreReplies ms

-- The root's array with these entries at its front.
abbrev pub filled : SampleSort → List RefTwoDimIntArrayMsg → ℕ → SampleSort
filled this ms n = record this {
  buckets_values_arr = map some ms ++ replicate n none;
  buckets_values_arr_count = length ms;
}

-- One more reply.
pub handle_sub_array-filled :
    (this : SampleSort) (ms : List RefTwoDimIntArrayMsg) (n : ℕ) (m : RefTwoDimIntArrayMsg)
    → handle_sub_array (filled this ms (suc n)) (ref_two_dim m)
      ≡ done (filled this (ms ++ (m ∷ [])) n)
unfolding handle_sub_array
handle_sub_array-filled this ms n m =
    let entries = map some ms in
    let same = length-map some ms in
    let spot : get_elem? (entries ++ (none ∷ replicate n none)) (length ms) ≡ some none =
      ap (get_elem? (entries ++ (none ∷ replicate n none))) (sym same)
      ∙ get_elem?-append entries (replicate n none) none in
    let stored : set (entries ++ (none ∷ replicate n none)) (length ms) (some m)
        ≡ map some (ms ++ (m ∷ [])) ++ replicate n none =
      ap (λ i. set (entries ++ (none ∷ replicate n none)) i (some m)) (sym same)
      ∙ set-append entries (replicate n none) none (some m)
      ∙ ap (λ l. l ++ replicate n none) (sym (map-append some ms (m ∷ []))) in
    let longer : length ms + 1 ≡ length (ms ++ (m ∷ [])) =
      omega (arith, length-append ms (m ∷ [])) in
    rw (spot, stored, longer) refl

receives-filled :
    (this : SampleSort) (s : Shared) (p : Process) (at base t : ℕ)
    (before ms : List RefTwoDimIntArrayMsg) (ns : List Message)
    → IsMapped p t base
    → Carries (s.segments t) (map ref_two_dim ms ++ ns)
    → AreReplies ms
    → (s' : Shared) × (receives reaction (length ms) (filled this before (length ms)) s p at t
        ≡ done (served (filled this (before ++ ms) 0) s' p))
      × Carries (s'.segments t) ns
unfolding receives reaction
receives-filled this s p at base t before [] ns mapped k a = (s, rw (append-nil before) refl, k)
receives-filled this s p at base t before (m ∷ ms) ns mapped k (e, a) =
    let n = length ms in
    let this1 = filled this before (suc n) in
    let this2 = filled this (before ++ (m ∷ [])) n in
    let (s1, r1, k1) =
      receive_by-handles reaction handle_sub_array this1 this2 s p at base t (ref_two_dim m) _
        mapped k (rw e refl) (rw e refl) (handle_sub_array-filled this before n m) in
    let (s2, r2, k2) = receives-filled this s1 p at base t (before ++ (m ∷ [])) ms ns mapped k1 a in
    (
      s2,
      receives_cons reaction this1 this2 s s1 p p at t n r1
          ∙ r2
          ∙ ap (λ l. done (served (filled this l 0) s2 p)) (append_assoc before (m ∷ []) ms),
      k2,
    )

-- In the second round the root receives as often as it has buckets. If it has mapped its queue
-- and the replies of K buckets, under the tag 6, are the first on their way to it, then its
-- array holds exactly these afterwards, in the order in which they arrived, and what was behind
-- them is left.
pub receives-replies :
    (this : SampleSort) (s : Shared) (p : Process) (at base t : ℕ) (ms : List RefTwoDimIntArrayMsg)
    (ns : List Message)
    → IsMapped p t base
    → Carries (s.segments t) (map ref_two_dim ms ++ ns)
    → AreReplies ms
    → (s' : Shared) × (receives reaction (length ms) (clear_replies (length ms) this) s p at t
        ≡ done (
            served
              (record this {
                buckets_values_arr = map some ms;
                buckets_values_arr_count = length ms;
              })
              s'
              p))
      × Carries (s'.segments t) ns
unfolding clear_replies
receives-replies this s p at base t ms ns mapped k a =
    let (s', run, left) = receives-filled this s p at base t [] ms ns mapped k a in
    (
      s',
      run
          ∙ ap
              (λ l. done (
                served
                  (record this { buckets_values_arr = l; buckets_values_arr_count = length ms }) s'
                  p))
              (append-nil (map some ms)),
      left,
    )

-- Every message refers to the counts and sub-arrays of its bucket.
abbrev pub AllRefer : Heap → List RefTwoDimIntArrayMsg → List SubArrays → Type 0
AllRefer heap [] [] = Unit {0}
AllRefer heap (m ∷ ms) ((counts, rows) ∷ replies) =
    Refers heap m counts rows × AllRefer heap ms replies
AllRefer heap _ _ = ⊥

pub AreRows-at :
    (heap : Heap) (vs : List Ptr) (rows : List (List ℤ)) (i : ℕ) (row : List ℤ)
    → AreRows heap vs rows
    → get_elem? rows i ≡ some row
    → (v : Ptr) × (get_elem? vs i ≡ some v) × (get_elem? heap v.block ≡ some row) × (v.offset ≡ 0)
AreRows-at heap [] [] i row a e = absurd (cc)
AreRows-at heap [] (r ∷ rows) i row a e = absurd a
AreRows-at heap (v ∷ vs) [] i row a e = absurd a
AreRows-at heap (v ∷ vs) (r ∷ rows) zero row (b, z, a) e = (v, refl, b ∙ e, z)
AreRows-at heap (v ∷ vs) (r ∷ rows) (suc i) row (b, z, a) e = AreRows-at heap vs rows i row a e

pub get_elem?-map :
    (counts : List ℕ) (i c : ℕ)
    → get_elem? counts i ≡ some c
    → get_elem? (map pos counts) i ≡ some (pos c)
get_elem?-map [] i c e = absurd (cc)
get_elem?-map (x ∷ counts) zero c e = let same : x ≡ c = cc in rw same refl
get_elem?-map (x ∷ counts) (suc i) c e = get_elem?-map counts i c e
