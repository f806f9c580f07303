-- ===== src/Tasks/DatabaseTask/Slots.antt =====
-- The slots of the table: their sizes, and the search for an id.
use francois_gingras_master.Common.{
  equal_bytes, strncpy, equal_bytes_self, length-strncpy, ℕ, zero, suc, ◌+◌, ◌≤◌, ◌<◌, ◌≡◌, refl,
  ap, sym, ◌∙◌, inl, inr, true, Bool-cases, take-length, none, some, List, [], ◌∷◌, ◌++◌, length,
  length-append, length-take, length-drop, take, drop, append_assoc, set, get_elem?, arith,
}
use francois_gingras_master.Tasks.DatabaseTask.{find, write_student}

pub find-lt :
    (slots : List (List ℕ)) (id : List ℕ) (i j : ℕ)
    → find slots id i ≡ some j
    → j < i + length slots
unfolding find
find-lt [] id i j e = absurd (cc)
find-lt (slot ∷ slots) id i j e = elim (Bool-cases (equal_bytes (take 8 slot) id)) [
  | inl same ↦ let at : some i ≡ some j = rw same at e in let eq : i ≡ j = cc in omega (arith, eq)
  | inr other ↦ omega (arith, find-lt slots id (i + 1) j (rw other at e))
]

pub length-write_student :
    (slot id name gpa : List ℕ)
    → length slot ≡ 48
    → length id ≡ 8
    → length gpa ≡ 4
    → length (write_student slot id name gpa) ≡ 48
unfolding write_student
length-write_student slot id name gpa hs hi hg =
    let middle = take 2 (drop 38 slot) in
    let m : length middle ≡ 2 = length-take 2 (drop 38 slot) (omega (arith, length-drop 38 slot)) in
    omega (
      arith,
      length-append id (strncpy 30 name ++ (middle ++ (gpa ++ drop 44 slot))),
      length-append (strncpy 30 name) (middle ++ (gpa ++ drop 44 slot)),
      length-append middle (gpa ++ drop 44 slot),
      length-append gpa (drop 44 slot),
      length-drop 44 slot,
      length-strncpy 30 name,
      m,
    )

pub set-sized :
    (slots : List (List ℕ)) (k : ℕ) (new : List ℕ)
    → length new ≡ 48
    → ((i : ℕ) (slot : List ℕ) → get_elem? slots i ≡ some slot → length slot ≡ 48)
    → (i : ℕ) (slot : List ℕ) → get_elem? (set slots k new) i ≡ some slot
    → length slot ≡ 48
set-sized [] k new hn h i slot e = absurd (cc)
set-sized (x ∷ slots) zero new hn h zero slot e =
    let same : new ≡ slot = cc in ap length (sym same) ∙ hn
set-sized (x ∷ slots) zero new hn h (suc i) slot e = h (suc i) slot e
set-sized (x ∷ slots) (suc k) new hn h zero slot e = h 0 slot e
set-sized (x ∷ slots) (suc k) new hn h (suc i) slot e =
    set-sized slots k new hn (λ j s d. h (suc j) s d) i slot e

pub length-take_rows : (n : ℕ) (l : List (List ℕ)) → length (take n l) ≤ length l
length-take_rows zero l = omega arith
length-take_rows (suc n) [] = omega arith
length-take_rows (suc n) (x ∷ l) = omega (arith, length-take_rows n l)

pub take_all : (l : List ℕ) (n : ℕ) → length l ≡ n → take n l ≡ l
take_all l n e = rw (sym e) (take-length l)

take-append : (l r : List ℕ) (n : ℕ) → length l ≡ n → take n (l ++ r) ≡ l
take-append [] r zero e = refl
take-append [] r (suc n) e = absurd (omega arith)
take-append (x ∷ l) r zero e = absurd (omega arith)
take-append (x ∷ l) r (suc n) e = ap (λ k. x ∷ k) (take-append l r n (omega arith))

-- A slot starts with the id that was written into it.
pub write_student-id :
    (slot id name gpa : List ℕ)
    → length id ≡ 8
    → equal_bytes (take 8 (write_student slot id name gpa)) id ≡ true
unfolding write_student
write_student-id slot id name gpa h =
    let rest = strncpy 30 name ++ (take 2 (drop 38 slot) ++ (gpa ++ drop 44 slot)) in
    rw (take-append id rest 8 h) (equal_bytes_self id)

drop-append : (l r : List ℕ) (n : ℕ) → length l ≡ n → drop n (l ++ r) ≡ r
drop-append [] r zero e = refl
drop-append [] r (suc n) e = absurd (omega arith)
drop-append (x ∷ l) r zero e = absurd (omega arith)
drop-append (x ∷ l) r (suc n) e = drop-append l r n (omega arith)

-- The three fields of a slot that was written, at their offsets.
pub write_student-fields :
    (slot id name gpa : List ℕ)
    → length slot ≡ 48
    → length id ≡ 8
    → length gpa ≡ 4
    → (let new = write_student slot id name gpa in
        (take 8 new ≡ id) × (take 30 (drop 8 new) ≡ strncpy 30 name) × (take 4 (drop 40 new) ≡ gpa))
unfolding write_student
write_student-fields slot id name gpa hs hi hg =
    let copied = strncpy 30 name in
    let middle = take 2 (drop 38 slot) in
    let back = gpa ++ drop 44 slot in
    let m : length middle ≡ 2 = length-take 2 (drop 38 slot) (omega (arith, length-drop 38 slot)) in
    let front : length (id ++ (copied ++ middle)) ≡ 40 = omega (
      arith,
      length-append id (copied ++ middle),
      length-append copied middle,
      length-strncpy 30 name,
      m,
    ) in
    let grouped : id ++ (copied ++ (middle ++ back)) ≡ (id ++ (copied ++ middle)) ++ back =
      ap (λ l. id ++ l) (sym (append_assoc copied middle back))
      ∙ sym (append_assoc id (copied ++ middle) back) in
    (
      take-append id (copied ++ (middle ++ back)) 8 hi,
      ap (take 30) (drop-append id (copied ++ (middle ++ back)) 8 hi)
          ∙ take-append copied (middle ++ back) 30 (length-strncpy 30 name),
      ap (λ l. take 4 (drop 40 l)) grouped
          ∙ ap (take 4) (drop-append (id ++ (copied ++ middle)) back 40 front)
          ∙ take-append gpa (drop 44 slot) 4 hg,
    )

-- A slot that is written behind slots without its id is the first one with it.
pub find-set :
    (slots : List (List ℕ)) (k i : ℕ) (new id : List ℕ)
    → k < length slots
    → find (take k slots) id i ≡ none
    → equal_bytes (take 8 new) id ≡ true
    → find (take (suc k) (set slots k new)) id i ≡ some (i + k)
unfolding find
find-set [] k i new id h e same = elim h [ ]
find-set (x ∷ slots) zero i new id h e same = rw same (ap some (omega arith))
find-set (x ∷ slots) (suc k) i new id h e same = elim (Bool-cases (equal_bytes (take 8 x) id)) [
  | inl found ↦ let wrong : some i ≡ none = rw found at e in absurd (cc)
  | inr other ↦
      rw other
        (find-set slots k (i + 1) new id (omega arith) (rw other at e) same ∙ ap some (omega arith))
]
