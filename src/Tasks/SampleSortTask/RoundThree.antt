-- ===== src/Tasks/SampleSortTask/RoundThree.antt =====
-- The messages of the third round refer to the columns of the replies.
use francois_gingras_master.Common.{
  ℕ, zero, suc, ◌+◌, ◌≡◌, refl, sym, ap, ◌∙◌, inl, inr, some, ℤ, pos, List, [], ◌∷◌, ◌++◌, map,
  length, length-map, get_elem?-append, get_elem?, Option-cases, Outcome, done, fault, exits, arith,
}
use francois_gingras_master.Messages.Header.{Heap, Ptr, deref}
use francois_gingras_master.Messages.RefTwoDimIntArrayMsg.{RefTwoDimIntArrayMsg, created}
use francois_gingras_master.Messages.RefTwoDimIntArrayMsg
use francois_gingras_master.Tasks.SampleSortTask.{SubArrays, column}
use francois_gingras_master.Tasks.BucketTask.{rebuild}
use francois_gingras_master.Messages.Message.{ref_two_dim}
use francois_gingras_master.Tasks.BucketTask.Receive.{Bucket, handle_set_sub_array}
use francois_gingras_master.Tasks.BucketTask.Rounds.{AreRows, Refers, handle_set_sub_array-rebuild}
use francois_gingras_master.Tasks.SampleSortTask.Receive.{gather, build_ref_to_bucket}
use francois_gingras_master.Tasks.SampleSortTask.Rounds.{AllRefer, AreRows-at, get_elem?-map}

-- A column is the entry of the first reply and the column of the others.
column_cons :
    (ki : ℕ) (counts : List ℕ) (values : List (List ℤ)) (replies : List SubArrays) (cs : List ℕ)
    (vs : List (List ℤ)) (o : Outcome SubArrays)
    → column ki replies ≡ o
    → column ki ((counts, values) ∷ replies) ≡ done (cs, vs)
    → (c : ℕ) × (row : List ℤ) × (cs' : List ℕ) × (vs' : List (List ℤ)) × (get_elem? counts ki
        ≡ some c)
      × (get_elem? values ki ≡ some row)
      × (column ki replies ≡ done (cs', vs'))
      × (c ∷ cs' ≡ cs)
      × (row ∷ vs' ≡ vs)
unfolding column
column_cons ki counts values replies cs vs o e d = elim (Option-cases (get_elem? counts ki)) [
  | inl outside ↦ let no : fault ≡ done (cs, vs) = rw outside at d in absurd (cc)
  | inr (c, at) ↦ elim (Option-cases (get_elem? values ki)) [
    | inl outside ↦ let no : fault ≡ done (cs, vs) = rw (at, outside) at d in absurd (cc)
    | inr (row, at') ↦ rest c row at at' o e
  ]
]
  where
    rest :
        (c : ℕ) (row : List ℤ)
        → get_elem? counts ki ≡ some c
        → get_elem? values ki ≡ some row
        → (o : Outcome SubArrays) → column ki replies ≡ o
        → (c : ℕ) × (row : List ℤ) × (cs' : List ℕ) × (vs' : List (List ℤ)) × (get_elem? counts ki
            ≡ some c)
          × (get_elem? values ki ≡ some row)
          × (column ki replies ≡ done (cs', vs'))
          × (c ∷ cs' ≡ cs)
          × (row ∷ vs' ≡ vs)
    rest c row at at' fault e = let no : fault ≡ done (cs, vs) = rw (at, at', e) at d in absurd (cc)
    rest c row at at' exits e = let no : exits ≡ done (cs, vs) = rw (at, at', e) at d in absurd (cc)
    rest c row at at' (done (cs', vs')) e =
        let same : done (c ∷ cs', row ∷ vs') ≡ done (cs, vs) = rw (at, at', e) at d in
        (c, row, cs', vs', at, at', e, cc, cc)

gather-column :
    (heap : Heap) (ki : ℕ) (ms : List RefTwoDimIntArrayMsg) (replies : List SubArrays) (cs : List ℕ)
    (vs : List (List ℤ))
    → AllRefer heap ms replies
    → column ki replies ≡ done (cs, vs)
    → (ptrs : List Ptr) × (gather heap ki (map some ms) ≡ done (map pos cs, ptrs))
      × AreRows heap ptrs vs
      × (length cs ≡ length ms)
unfolding gather column deref
gather-column heap ki [] [] cs vs a e =
    let no_counts : [] ≡ cs = cc in
    let no_rows : [] ≡ vs = cc in rw⁻¹ (no_counts, no_rows) ([], refl, tt, refl)
gather-column heap ki [] (r ∷ replies) cs vs a e = absurd a
gather-column heap ki (m ∷ ms) [] cs vs a e = absurd a
gather-column heap ki (m ∷ ms) ((counts, rows) ∷ replies) cs vs (r, a) e =
    let (c, row, cs', vs', at, at', e', front, back) =
      column_cons ki counts rows replies cs vs _ refl e in
    let (ptrs, run, rows', len) = gather-column heap ki ms replies cs' vs' a e' in
    let (v, place, block, zero_at) = AreRows-at heap m.values rows ki row r.rows_at at' in
    let here : m.counts.offset + ki ≡ ki = omega (arith, r.first) in
    rw⁻¹ (front, back)
      (
        v ∷ ptrs,
        rw (r.counted, here, get_elem?-map counts ki c at, place, run) refl,
        (block, zero_at, rows'),
        ap suc len,
      )

get_elem?-append_some :
    (heap : Heap) (new cells : List ℤ) (i : ℕ)
    → get_elem? heap i ≡ some cells
    → get_elem? (heap ++ (new ∷ [])) i ≡ some cells
get_elem?-append_some [] new cells i e = absurd (cc)
get_elem?-append_some (b ∷ heap) new cells zero e = e
get_elem?-append_some (b ∷ heap) new cells (suc i) e = get_elem?-append_some heap new cells i e

AreRows-append :
    (heap : Heap) (new : List ℤ) (vs : List Ptr) (rows : List (List ℤ))
    → AreRows heap vs rows
    → AreRows (heap ++ (new ∷ [])) vs rows
AreRows-append heap new [] [] a = tt
AreRows-append heap new [] (r ∷ rows) a = absurd a
AreRows-append heap new (v ∷ vs) [] a = absurd a
AreRows-append heap new (v ∷ vs) (r ∷ rows) (b, z, a) =
    (get_elem?-append_some heap new r v.block b, z, AreRows-append heap new vs rows a)

-- The message for bucket ki, which refers to the column, and the heap with its counts.
pub build_ref_to_bucket_lem :
    (heap : Heap) (ki : ℕ) (ms : List RefTwoDimIntArrayMsg) (replies : List SubArrays) (cs : List ℕ)
    (vs : List (List ℤ)) (memory : RefTwoDimIntArrayMsg)
    → AllRefer heap ms replies
    → column ki replies ≡ done (cs, vs)
    → (m : RefTwoDimIntArrayMsg) × (new : Heap) × (build_ref_to_bucket heap ki (map some ms) memory
        ≡ done (m, heap ++ new))
      × (m.header ≡ created (pos 7))
      × Refers (heap ++ new) m cs vs
unfolding build_ref_to_bucket RefTwoDimIntArrayMsg.create
build_ref_to_bucket_lem heap ki ms replies cs vs memory a e =
    let (ptrs, run, rows, len) = gather-column heap ki ms replies cs vs a e in
    let m = record (RefTwoDimIntArrayMsg.create (pos 7) memory) {
      size = length (map some ms);
      counts = record { block = length heap; offset = 0 };
      values = ptrs;
    } in
    (
      m,
      map pos cs ∷ [],
      rw run refl,
      refl,
      record {
        counted = get_elem?-append heap [] (map pos cs);
        first = refl;
        sized = length-map some ms ∙ sym len;
        rows_at = AreRows-append heap (map pos cs) ptrs vs rows;
      },
    )

-- If the root's array holds messages that refer to the buckets' replies, and column ki of the
-- replies can be rebuilt, then the root builds for bucket ki a message under the tag 7 that
-- refers to the column. A bucket that handles it builds the array that `rebuild` gives for the
-- column.
pub build_ref_to_bucket-column :
    (heap : Heap) (ki : ℕ) (ms : List RefTwoDimIntArrayMsg) (replies : List SubArrays) (cs : List ℕ)
    (vs : List (List ℤ)) (out : List ℤ) (memory : RefTwoDimIntArrayMsg) (bucket : Bucket)
    → AllRefer heap ms replies
    → column ki replies ≡ done (cs, vs)
    → rebuild cs vs ≡ done out
    → (m : RefTwoDimIntArrayMsg) × (heap' : Heap) × (build_ref_to_bucket heap ki
          (map some ms)
          memory
        ≡ done (m, heap'))
      × (m.tag ≡ pos 7)
      × Refers heap' m cs vs
      × (handle_set_sub_array heap' bucket (ref_two_dim m)
          ≡ done (record bucket { final_data_size = length out; final_data_values = out }))
build_ref_to_bucket-column heap ki ms replies cs vs out memory bucket a e b =
    let (m, new, built, made, r) = build_ref_to_bucket_lem heap ki ms replies cs vs memory a e in
    (
      m,
      heap ++ new,
      built,
      ap (λ h. h.tag) made,
      r,
      handle_set_sub_array-rebuild (heap ++ new) bucket m cs vs out r b,
    )
