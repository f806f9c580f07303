-- ===== src/Tasks/SampleSortTask/Correct/Rounds.antt =====
-- Each round of the sample sort, by itself.
use mathlib.Core.List.{Perm, Permᴰ, flatten, perm_append_comm}
use mathlib.Core.Path.{subst}
use mathlib.Core.List.Perm
use francois_gingras_master.Common.{
  ℕ, zero, suc, ◌+◌, ◌≡◌, refl, ap, sym, ◌∙◌, some, List, [], ◌∷◌, ◌++◌, append_assoc, replicate,
  map, length, take, drop, get_elem?, append-nil, length-replicate, done, arith, ℤ,
}
use francois_gingras_master.Tasks.Qsort.{Qsort}
use francois_gingras_master.Tasks.BucketTask.{final_sort, sub_arrays}
use francois_gingras_master.Tasks.BucketTask.Partition.{distribute}
use francois_gingras_master.Tasks.BucketTask.Partition.Fill.{sub_arrays-distribute}
use francois_gingras_master.Tasks.BucketTask.Partition.Order.{
  Separated, distribute-perm, length-distribute, distribute-Separated,
}
use francois_gingras_master.Tasks.SampleSortTask.{
  SubArrays, parts, bucket_replies, bucket_output, outputs,
}
use francois_gingras_master.Tasks.SampleSortTask.Merge.{
  merged, AllReplies, IsReply, all_values, column-rebuild, empty-Separated, flatten-empty,
  length-merged,
}

take-drop : (n : ℕ) (l : List ℤ) → take n l ++ drop n l ≡ l
take-drop zero l = refl
take-drop (suc n) [] = refl
take-drop (suc n) (x ∷ l) = ap (λ r. x ∷ r) (take-drop n l)

-- Round 1: the parts together are the data.
pub parts-flatten : (k size : ℕ) (values : List ℤ) → flatten (parts (suc k) size values) ≡ values
unfolding parts flatten
parts-flatten zero size values = append-nil values
parts-flatten (suc k) size values =
    ap (λ l. take size values ++ l) (parts-flatten k size (drop size values))
    ∙ take-drop size values

-- Round 2: every bucket replies, with its part in order among its sub-arrays.
module _ (s : ℤ) (ss : List ℤ) where
  abbrev pub rows_of : List ℤ → List (List ℤ)
  rows_of part = distribute (s ∷ ss) part (replicate (suc (length ss)) [])

  abbrev pub replies_of : List (List ℤ) → List SubArrays
  replies_of [] = []
  replies_of (part ∷ rest) = (map length (rows_of part), rows_of part) ∷ replies_of rest

  pub bucket_replies-replies_of :
      (junk : ℤ) (ps : List (List ℤ))
      → bucket_replies junk (suc (length ss)) (s ∷ ss) ps ≡ done (replies_of ps)
  unfolding bucket_replies
  bucket_replies-replies_of junk [] = refl
  bucket_replies-replies_of junk (part ∷ rest) =
      rw (sub_arrays-distribute junk s ss part, bucket_replies-replies_of junk rest)

  pub replies_of-AllReplies :
      (ps : List (List ℤ)) → AllReplies (suc (length ss)) (s ∷ ss) (replies_of ps)
  replies_of-AllReplies [] = tt
  replies_of-AllReplies (part ∷ rest) =
      let k : ℕ = suc (length ss) in
      let empty : List (List ℤ) = replicate k [] in
      (
        (
          refl,
          length-distribute (s ∷ ss) part empty ∙ length-replicate k [],
          distribute-Separated s ss part empty (length-replicate k []) (empty-Separated k (s ∷ ss)),
        ),
        replies_of-AllReplies rest,
      )

  pub replies_of-perm : (ps : List (List ℤ)) → Perm (all_values (replies_of ps)) (flatten ps)
  unfolding flatten
  replies_of-perm [] = Perm.refl []
  replies_of-perm (part ∷ rest) =
      let k : ℕ = suc (length ss) in
      let mine = distribute-perm s ss part (replicate k []) (length-replicate k []) in
      let same : part ++ flatten (replicate k []) ≡ part =
        ap (λ l. part ++ l) (flatten-empty k) ∙ append-nil part in
      Perm.trans (Perm.append_right (all_values (replies_of rest)) (rw same at mine))
        (Perm.append_left part (replies_of-perm rest))

-- The replies may arrive in any order.
pub AllReplies-perm :
    {l r : List SubArrays} (k : ℕ) (splitters : List ℤ)
    → Permᴰ l r
    → AllReplies k splitters l
    → AllReplies k splitters r
AllReplies-perm k splitters Permᴰ.nil h = tt
AllReplies-perm k splitters (Permᴰ.cons e p) h =
    (subst (IsReply k splitters) e h.0, AllReplies-perm k splitters p h.1)
AllReplies-perm k splitters (Permᴰ.swap d e) h =
    (subst (IsReply k splitters) e h.1.0, (subst (IsReply k splitters) d h.0, h.1.1))
AllReplies-perm k splitters (Permᴰ.trans p q) h =
    AllReplies-perm k splitters q (AllReplies-perm k splitters p h)

pub all_values-perm : {l r : List SubArrays} → Permᴰ l r → Perm (all_values l) (all_values r)
all_values-perm Permᴰ.nil = Perm.refl []
all_values-perm (Permᴰ.cons {a} {b} {l₂ = r} e p) =
    Perm.trans (Perm.append_left (flatten (a.1)) (all_values-perm p)) (
      subst (λ c. Perm (flatten (a.1) ++ all_values r) (flatten (c.1) ++ all_values r)) e
        (Perm.refl _))
all_values-perm (Permᴰ.swap {a} {b} {l} d e) =
    let swapped =
      Perm.append_right (all_values l) (perm_append_comm (flatten (a.1)) (flatten (b.1))) in
    rw (sym d, sym e) (simp append_assoc at swapped)
all_values-perm (Permᴰ.trans p q) = Perm.trans (all_values-perm p) (all_values-perm q)

get_elem?-drop :
    (l : List (List ℤ)) (i : ℕ) (x : List ℤ)
    → get_elem? l i ≡ some x
    → drop i l ≡ x ∷ drop (suc i) l
get_elem?-drop [] i x h = absurd (cc)
get_elem?-drop (y ∷ l) zero x h = ap (λ z. z ∷ l) (cc)
get_elem?-drop (y ∷ l) (suc i) x h = get_elem?-drop l i x h

drop-length : (l : List (List ℤ)) (n : ℕ) → length l ≡ n → drop n l ≡ []
drop-length [] zero e = refl
drop-length [] (suc n) e = refl
drop-length (x ∷ l) zero e = absurd (omega arith)
drop-length (x ∷ l) (suc n) e = drop-length l n (omega arith)

-- Round 3: every bucket gets its sub-array of all data, and sorts it.
pub outputs-merged :
    (lib : Qsort) (k : ℕ) (splitters : List ℤ) (replies : List SubArrays)
    → AllReplies k splitters replies
    → (n ki : ℕ) → ki + n ≡ k
    → outputs lib ki n replies ≡ done (map (final_sort lib) (drop ki (merged k replies)))
unfolding outputs bucket_output
outputs-merged lib k splitters replies h zero ki e =
    rw (drop-length (merged k replies) ki (length-merged k splitters replies h ∙ omega arith))
outputs-merged lib k splitters replies h (suc n) ki e =
    let (cs, vs, out, ec, eb, eg) = column-rebuild k splitters ki replies h (omega arith) in
    let next : ki + 1 ≡ suc ki = omega arith in
    rw (
      ec,
      eb,
      get_elem?-drop (merged k replies) ki out eg,
      next,
      outputs-merged lib k splitters replies h n (suc ki) (omega arith),
    )

-- With as many buckets as splitters, and at least one, a bucket computes sub-arrays that together
-- are a rearrangement of its values, and the counts are their lengths. Every splitter but the last
-- is an upper bound of its sub-array and less than all values of the later ones, whether or not the
-- splitters ascend.
pub sub_arrays-Separated :
    (junk s : ℤ) (ss vals : List ℤ)
    → (rows : List (List ℤ)) × (sub_arrays junk (suc (length ss)) (s ∷ ss) vals
        ≡ done (map length rows, rows))
      × (length rows ≡ suc (length ss))
      × Perm (flatten rows) vals
      × Separated (s ∷ ss) rows
sub_arrays-Separated junk s ss vals =
    let k : ℕ = suc (length ss) in
    let empty : List (List ℤ) = replicate k [] in
    let kept = distribute-perm s ss vals empty (length-replicate k []) in
    let same : vals ++ flatten empty ≡ vals =
      ap (λ l. vals ++ l) (flatten-empty k) ∙ append-nil vals in
    (
      distribute (s ∷ ss) vals empty,
      sub_arrays-distribute junk s ss vals,
      length-distribute (s ∷ ss) vals empty ∙ length-replicate k [],
      rw same at kept,
      distribute-Separated s ss vals empty (length-replicate k []) (empty-Separated k (s ∷ ss)),
    )
