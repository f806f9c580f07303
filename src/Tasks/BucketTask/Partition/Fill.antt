-- ===== src/Tasks/BucketTask/Partition/Fill.antt =====
-- The second pass fills the arrays that the first pass has measured, exactly.
use francois_gingras_master.Common.{
  ℕ, zero, suc, ◌+◌, ◌<◌, ◌≡◌, refl, ap, ap₂, sym, ◌∙◌, List, [], ◌∷◌, ◌++◌, append-nil, replicate,
  map, length, length-append, length-replicate, set, done, arith, ltb, true, ℤ,
}
use francois_gingras_master.Tasks.BucketTask.{write_next, write_next_at, fill, sub_arrays}
use francois_gingras_master.Tasks.BucketTask.Partition.{
  pick, push_at, bump, distribute, count_all, pick_from-pick, pick-lt, length-bump, count_all-bump,
  get_counts-count_all,
}

map-length-push_at :
    (rows : List (List ℤ)) (i : ℕ) (val : ℤ)
    → map length (push_at rows i val) ≡ bump (map length rows) i
map-length-push_at [] i val = refl
map-length-push_at (r ∷ rows) zero val =
    ap (λ k. k ∷ map length rows) (length-append r (val ∷ []) ∙ omega arith)
map-length-push_at (r ∷ rows) (suc i) val = ap (λ l. length r ∷ l) (map-length-push_at rows i val)

map-length-distribute :
    (splitters vals : List ℤ) (rows : List (List ℤ))
    → map length (distribute splitters vals rows) ≡ count_all splitters vals (map length rows)
unfolding distribute count_all
map-length-distribute splitters [] rows = refl
map-length-distribute splitters (val ∷ vals) rows =
    map-length-distribute splitters vals (push_at rows (pick splitters val) val)
    ∙ ap (count_all splitters vals) (map-length-push_at rows (pick splitters val) val)

pub length-push_at :
    (rows : List (List ℤ)) (i : ℕ) (val : ℤ) → length (push_at rows i val) ≡ length rows
length-push_at [] i val = refl
length-push_at (r ∷ rows) zero val = refl
length-push_at (r ∷ rows) (suc i) val = ap suc (length-push_at rows i val)

length-count_all :
    (splitters vals : List ℤ) (counts : List ℕ)
    → length (count_all splitters vals counts) ≡ length counts
unfolding count_all
length-count_all splitters [] counts = refl
length-count_all splitters (val ∷ vals) counts =
    length-count_all splitters vals (bump counts (pick splitters val))
    ∙ length-bump counts (pick splitters val)

set-append :
    (d : List ℤ) (x val : ℤ) (rest : List ℤ)
    → set (d ++ (x ∷ rest)) (length d) val ≡ (d ++ (val ∷ [])) ++ rest
set-append [] x val rest = refl
set-append (y ∷ d) x val rest = ap (λ l. y ∷ l) (set-append d x val rest)

module _ (junk : ℤ) where
  -- Each array starts with the values that it has received and has room for those to come.
  abbrev layout : List (List ℤ) → List ℕ → List (List ℤ)
  layout [] todo = []
  layout (d ∷ received) [] = []
  layout (d ∷ received) (n ∷ todo) = (d ++ replicate n junk) ∷ layout received todo

  write_next-layout :
      (received : List (List ℤ)) (todo : List ℕ) (i : ℕ) (val : ℤ)
      → i < length todo
      → length received ≡ length todo
      → write_next (layout received (bump todo i)) (map length received) i val
        ≡ done (layout (push_at received i val) todo, map length (push_at received i val))
  unfolding write_next
  write_next-layout [] [] i val h e = elim h [ ]
  write_next-layout [] (n ∷ todo) i val h e = absurd (omega arith)
  write_next-layout (d ∷ received) [] i val h e = elim h [ ]
  write_next-layout (d ∷ received) (n ∷ todo) zero val h e =
      let full = length-append d (junk ∷ replicate n junk) in
      let fits : ltb (length d) (length (d ++ (junk ∷ replicate n junk))) ≡ true =
        ground (arith, full) in
      let longer : length d + 1 ≡ length (d ++ (val ∷ [])) =
        omega (arith, length-append d (val ∷ [])) in
      rw (fits, set-append d junk val (replicate n junk), longer)
  write_next-layout (d ∷ received) (n ∷ todo) (suc i) val h e =
      rw (write_next-layout received todo i val (omega arith) (omega arith))

  layout_start :
      (counts : List ℕ)
      → layout (replicate (length counts) []) counts ≡ map (λ c. replicate c junk) counts
  layout_start [] = refl
  layout_start (c ∷ counts) = ap (λ l. replicate c junk ∷ l) (layout_start counts)

  layout_end :
      (received : List (List ℤ)) (k : ℕ)
      → length received ≡ k
      → layout received (replicate k 0) ≡ received
  layout_end [] k e = refl
  layout_end (d ∷ received) zero e = absurd (omega arith)
  layout_end (d ∷ received) (suc k) e = ap₂ ◌∷◌ (append-nil d) (layout_end received k (omega arith))

  fill-distribute :
      (s : ℤ) (ss vals : List ℤ) (received : List (List ℤ))
      → length received ≡ suc (length ss)
      → fill
          (s ∷ ss)
          vals
          (layout received (count_all (s ∷ ss) vals (replicate (suc (length ss)) 0)))
          (map length received)
        ≡ done (distribute (s ∷ ss) vals received)
  unfolding fill distribute count_all
  fill-distribute s ss [] received e = ap done (layout_end received (suc (length ss)) e)
  fill-distribute s ss (val ∷ vals) received e =
      let p : ℕ = pick (s ∷ ss) val in
      let zeros : List ℕ = replicate (suc (length ss)) 0 in
      let todo : List ℕ = count_all (s ∷ ss) vals zeros in
      let size : length todo ≡ suc (length ss) =
        length-count_all (s ∷ ss) vals zeros ∙ length-replicate (suc (length ss)) 0 in
      let zero_add : 0 + p ≡ p = omega arith in
      rw
        (
          pick_from-pick 0 s ss val,
          zero_add,
          write_next_at,
          count_all-bump (s ∷ ss) vals zeros p,
          write_next-layout received todo p val (omega (arith, pick-lt s ss val)) (omega arith),
        )
        (fill-distribute s ss vals (push_at received p val) (length-push_at received p val ∙ e))

map-replicate : (k : ℕ) → map (length {A = ℤ}) (replicate k []) ≡ replicate k 0
map-replicate zero = refl
map-replicate (suc k) = ap (λ l. 0 ∷ l) (map-replicate k)

-- With as many buckets as splitters, and at least one, both passes stay within their arrays. The
-- result does not depend on what `malloc` left there, and the counts are the lengths of the
-- sub-arrays.
pub sub_arrays-distribute :
    (junk s : ℤ) (ss vals : List ℤ)
    → let rows = distribute (s ∷ ss) vals (replicate (suc (length ss)) []) in
      sub_arrays junk (suc (length ss)) (s ∷ ss) vals ≡ done (map length rows, rows)
unfolding sub_arrays
sub_arrays-distribute junk s ss vals =
    let k : ℕ = suc (length ss) in
    let empty : List (List ℤ) = replicate k [] in
    let zeros : List ℕ = replicate k 0 in
    let counts : List ℕ = count_all (s ∷ ss) vals zeros in
    let size : length counts ≡ k = length-count_all (s ∷ ss) vals zeros ∙ length-replicate k 0 in
    let start : map (λ c. replicate c junk) counts ≡ layout junk empty counts =
      sym (ap (λ n. layout junk (replicate n []) counts) (sym size) ∙ layout_start junk counts) in
    let lengths : map length (distribute (s ∷ ss) vals empty) ≡ counts =
      map-length-distribute (s ∷ ss) vals empty ∙ ap (count_all (s ∷ ss) vals) (map-replicate k) in
    let filled : fill (s ∷ ss) vals (layout junk empty counts) zeros
        ≡ done (distribute (s ∷ ss) vals empty) =
      ap (fill (s ∷ ss) vals (layout junk empty counts)) (sym (map-replicate k))
      ∙ fill-distribute junk s ss vals empty (length-replicate k []) in
    rw (get_counts-count_all s ss vals zeros (length-replicate k 0), start, filled, lengths)
