-- ===== src/Tasks/SampleSortTask/Merge.antt =====
-- Round 3: the columns of the buckets' replies, seen as the sub-arrays of all data.
use mathlib.Core.List.{Perm, flatten, perm_append_comm, not-mem-nil}
use mathlib.Core.List.Perm
use francois_gingras_master.Common.{
  ℕ, zero, suc, ◌<◌, ◌≡◌, refl, ap, sym, ◌∙◌, some, List, [], ◌∷◌, ◌++◌, append_assoc, replicate,
  map, length, take-length, get_elem?, get_elem?-some, length-replicate, leb, done, arith, ℤ, true,
}
use native.Mathlib.Bridge.{le_prop}
use mathlib.Core.HLevel.{¬_prop}
use francois_gingras_master.Tasks.BucketTask.{rebuild}
use francois_gingras_master.Tasks.BucketTask.Partition.Order.{Each-perm, Each-append, Separated}
use francois_gingras_master.Tasks.SampleSortTask.{SubArrays, column}

-- An empty sub-array.
abbrev pub no_values : List ℤ
no_values = []

-- The sub-arrays of two parts of the data, put together.
abbrev pub zip_append : List (List ℤ) → List (List ℤ) → List (List ℤ)
zip_append [] bs = []
zip_append (a ∷ us) [] = []
zip_append (a ∷ us) (b ∷ bs) = (a ++ b) ∷ zip_append us bs

abbrev pub merged : ℕ → List SubArrays → List (List ℤ)
merged k [] = replicate k []
merged k ((counts, values) ∷ replies) = zip_append values (merged k replies)

-- A reply of k sub-arrays with their lengths, in order among one another.
abbrev pub IsReply : ℕ → List ℤ → SubArrays → Type 0
IsReply k splitters (counts, values) =
    (counts ≡ map length values) × (length values ≡ k) × Separated splitters values

abbrev pub AllReplies : ℕ → List ℤ → List SubArrays → Type 0
AllReplies k splitters [] = Unit {0}
AllReplies k splitters (r ∷ replies) = IsReply k splitters r × AllReplies k splitters replies

length-zip_append :
    (us bs : List (List ℤ)) → length us ≡ length bs → length (zip_append us bs) ≡ length bs
length-zip_append [] [] e = refl
length-zip_append [] (b ∷ bs) e = absurd (omega arith)
length-zip_append (a ∷ us) [] e = absurd (omega arith)
length-zip_append (a ∷ us) (b ∷ bs) e = ap suc (length-zip_append us bs (omega arith))

pub length-merged :
    (k : ℕ) (splitters : List ℤ) (replies : List SubArrays)
    → AllReplies k splitters replies
    → length (merged k replies) ≡ k
length-merged k splitters [] h = length-replicate k []
length-merged k splitters ((counts, values) ∷ replies) h =
    let rest = length-merged k splitters replies h.1 in
    length-zip_append values (merged k replies) (h.0.1 ∙ sym rest) ∙ rest

get_elem?-zip_append :
    (us bs : List (List ℤ)) (i : ℕ) (x y : List ℤ)
    → get_elem? us i ≡ some x
    → get_elem? bs i ≡ some y
    → get_elem? (zip_append us bs) i ≡ some (x ++ y)
get_elem?-zip_append [] bs i x y h k = absurd (cc)
get_elem?-zip_append (a ∷ us) [] i x y h k = absurd (cc)
get_elem?-zip_append (a ∷ us) (b ∷ bs) zero x y h k = cc
get_elem?-zip_append (a ∷ us) (b ∷ bs) (suc i) x y h k = get_elem?-zip_append us bs i x y h k

get_elem?-map-length :
    (rows : List (List ℤ)) (i : ℕ) (x : List ℤ)
    → get_elem? rows i ≡ some x
    → get_elem? (map length rows) i ≡ some (length x)
get_elem?-map-length [] i x h = absurd (cc)
get_elem?-map-length (r ∷ rows) zero x h = cc
get_elem?-map-length (r ∷ rows) (suc i) x h = get_elem?-map-length rows i x h

get_elem?-replicate : (k i : ℕ) → i < k → get_elem? (replicate k no_values) i ≡ some []
get_elem?-replicate zero i h = elim h [ ]
get_elem?-replicate (suc k) zero h = refl
get_elem?-replicate (suc k) (suc i) h = get_elem?-replicate k i (omega arith)

rebuild_cons :
    (v rest : List ℤ) (cs : List ℕ) (vs : List (List ℤ))
    → rebuild cs vs ≡ done rest
    → rebuild (length v ∷ cs) (v ∷ vs) ≡ done (v ++ rest)
unfolding rebuild
rebuild_cons v rest cs vs e =
    let full : leb (length v) (length v) ≡ true = ground arith in rw (e, full, take-length v)

-- Column number i is complete, and the bucket rebuilds from it what the data as a whole have there.
pub column-rebuild :
    (k : ℕ) (splitters : List ℤ) (i : ℕ) (replies : List SubArrays)
    → AllReplies k splitters replies
    → i < k
    → (cs : List ℕ) × (vs : List (List ℤ)) × (out : List ℤ) × (column i replies ≡ done (cs, vs))
      × (rebuild cs vs ≡ done out)
      × (get_elem? (merged k replies) i ≡ some out)
unfolding column rebuild
column-rebuild k splitters i [] h lt = ([], [], [], refl, refl, get_elem?-replicate k i lt)
column-rebuild k splitters i ((counts, values) ∷ replies) h lt =
    let (cs, vs, out, e, b, g) = column-rebuild k splitters i replies h.1 lt in
    let (v, ev) = get_elem?-some values i (omega (arith, h.0.1)) in
    (
      length v ∷ cs,
      v ∷ vs,
      v ++ out,
      rw (h.0.0, get_elem?-map-length values i v ev, ev, e),
      rebuild_cons v out cs vs b,
      get_elem?-zip_append values (merged k replies) i v out ev g,
    )

-- Putting together keeps every value, and the order among the sub-arrays.
pub zip_append-perm :
    (us bs : List (List ℤ))
    → length us ≡ length bs
    → Perm (flatten (zip_append us bs)) (flatten us ++ flatten bs)
unfolding flatten
zip_append-perm [] [] e = Perm.refl []
zip_append-perm [] (b ∷ bs) e = absurd (omega arith)
zip_append-perm (a ∷ us) [] e = absurd (omega arith)
zip_append-perm (a ∷ us) (b ∷ bs) e =
    let rest = Perm.append_left (a ++ b) (zip_append-perm us bs (omega arith)) in
    let swapped =
      Perm.append_left a (Perm.append_right (flatten bs) (perm_append_comm b (flatten us))) in
    Perm.trans rest (simp append_assoc (simp append_assoc at swapped))

pub zip_append-Separated :
    (splitters : List ℤ) (us bs : List (List ℤ))
    → length us ≡ length bs
    → Separated splitters us
    → Separated splitters bs
    → Separated splitters (zip_append us bs)
zip_append-Separated (s ∷ s' ∷ ss) (a ∷ us) (b ∷ bs) e h k = (
  Each-append (λ x. le_prop) h.0 k.0,
  Each-perm (zip_append-perm us bs (omega arith)) (Each-append (λ x. ¬_prop) h.1 k.1),
  zip_append-Separated (s' ∷ ss) us bs (omega arith) h.2 k.2,
)
zip_append-Separated (s ∷ s' ∷ ss) [] bs e h k = tt
zip_append-Separated (s ∷ s' ∷ ss) (a ∷ us) [] e h k = tt
zip_append-Separated (s ∷ []) us bs e h k = tt
zip_append-Separated [] us bs e h k = tt

pub flatten-empty : (k : ℕ) → flatten (replicate k no_values) ≡ []
unfolding flatten
flatten-empty zero = refl
flatten-empty (suc k) = flatten-empty k

pub empty-Separated : (k : ℕ) (splitters : List ℤ) → Separated splitters (replicate k [])
empty-Separated (suc k) (s ∷ s' ∷ ss) = (
  λ x m. absurd (not-mem-nil m),
  rw (flatten-empty k) (λ x m. absurd (not-mem-nil m)),
  empty-Separated k (s' ∷ ss),
)
empty-Separated zero (s ∷ s' ∷ ss) = tt
empty-Separated k (s ∷ []) = tt
empty-Separated k [] = tt

pub merged-Separated :
    (k : ℕ) (splitters : List ℤ) (replies : List SubArrays)
    → AllReplies k splitters replies
    → Separated splitters (merged k replies)
merged-Separated k splitters [] h = empty-Separated k splitters
merged-Separated k splitters ((counts, values) ∷ replies) h =
    zip_append-Separated splitters values (merged k replies)
      (h.0.1 ∙ sym (length-merged k splitters replies h.1)) h.0.2
      (merged-Separated k splitters replies h.1)

-- All values of the replies, in the order of the replies.
abbrev pub all_values : List SubArrays → List ℤ
all_values [] = []
all_values ((counts, values) ∷ replies) = flatten values ++ all_values replies

pub merged-perm :
    (k : ℕ) (splitters : List ℤ) (replies : List SubArrays)
    → AllReplies k splitters replies
    → Perm (flatten (merged k replies)) (all_values replies)
merged-perm k splitters [] h = rw (flatten-empty k) (Perm.refl [])
merged-perm k splitters ((counts, values) ∷ replies) h =
    Perm.trans
      (zip_append-perm values (merged k replies)
        (h.0.1 ∙ sym (length-merged k splitters replies h.1)))
      (Perm.append_left (flatten values) (merged-perm k splitters replies h.1))
