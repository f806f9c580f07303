-- ===== src/System/Repository.antt =====
-- The names of tasks: repository_set_name and repository_get_id of TaskSystem/src/System/System.c,
-- and the loop of System_create that clears the names.
use francois_gingras_master.Common.{
  strncpy, equal_bytes, equal_bytes_self, length-set, get_elem?-some, get_elem?-lt, Option-cases, ℕ,
  zero, suc, ◌+◌, ◌≤◌, ◌<◌, ◌≡◌, refl, ap, ◌∙◌, inl, inr, false, Bool-cases, Option, none, some, ℤ,
  pos, negsuc, List, [], ◌∷◌, ◌++◌, length, take, drop, set, get_elem?, Outcome, done, fault,
  or_fault, ◌>>=◌, ◌==◌, if◌then◌else◌, arith,
}

-- `char task_name[MAX_NAME_SIZE][MAX_TASK]`: 30 rows of 100 bytes. `task_has_name` has 100 flags.
pub record Repository : Type 0 where
  pub task_name : List (List ℕ)
  pub task_has_name : List ℕ

abbrev pub max_name_size : ℕ
max_name_size = 30

-- `strncpy(task_name[t], name, MAX_NAME_SIZE)`. A row behind the array is a fault.
unfoldable pub write_name : List (List ℕ) → ℕ → List ℕ → Outcome (List (List ℕ))
write_name rows t name = do
  row ← or_fault (get_elem? rows t)
  done (set rows t (strncpy max_name_size name ++ drop max_name_size row))

-- A write of a flag behind the array is a fault.
unfoldable pub write_flag : List ℕ → ℕ → ℕ → Outcome (List ℕ)
write_flag flags t flag = do old ← or_fault (get_elem? flags t); done (set flags t flag)

unfoldable pub repository_set_name : Repository → List ℕ → ℕ → Outcome Repository
unfolding write_name write_flag
repository_set_name r name t = do
  rows ← write_name r.task_name t name
  flags ← write_flag r.task_has_name t 1
  done (record { task_name = rows; task_has_name = flags })

-- The loop that clears `n` entries from entry i on.
unfoldable pub clear_names : Repository → ℕ → ℕ → Outcome Repository
unfolding write_name write_flag
clear_names r i zero = done r
clear_names r i (suc n) = do
  flags ← write_flag r.task_has_name i 0
  rows ← write_name r.task_name i []
  clear_names (record { task_name = rows; task_has_name = flags }) (i + 1) n

longer : ℕ → Option (List ℕ) → Option (List ℕ)
longer c none = none
longer c (some l) = some (c ∷ l)

-- The bytes of a row up to its NUL byte; `none` if it has none.
unfoldable pub c_string : List ℕ → Option (List ℕ)
unfolding longer
c_string [] = none
c_string (c ∷ row) = let rest = longer c (c_string row) in if c == 0 then some [] else rest

-- The search from entry i on. `strcmp` on a row with no NUL byte is a fault.
unfoldable pub search_name : List ℕ → List ℕ → List (List ℕ) → ℕ → Outcome ℤ
unfolding c_string
search_name name [] rows i = done (negsuc 0)
search_name name (flag ∷ flags) [] i =
    let rest = search_name name flags [] (i + 1) in if flag == 1 then fault else rest
search_name name (flag ∷ flags) (row ∷ rows) i =
    let rest = search_name name flags rows (i + 1) in
    if flag == 1
    then (or_fault (c_string row) >>= λ text. if equal_bytes name text then done (pos i) else rest)
    else rest

-- `name` is the text of the name that is looked for.
unfoldable pub repository_get_id : Repository → List ℕ → Outcome ℤ
repository_get_id r name = search_name name r.task_has_name r.task_name 0

clear_from :
    (n i : ℕ) (r : Repository)
    → length r.task_name ≡ 30
    → length r.task_has_name ≡ 100
    → i ≤ 30
    → i + n ≡ 100
    → clear_names r i n ≡ fault
unfolding clear_names write_name write_flag
clear_from zero i r h k le e = absurd (omega arith)
clear_from (suc n) i r h k le e =
    let (old, at) = get_elem?-some r.task_has_name i (omega arith) in
    elim (Option-cases (get_elem? r.task_name i)) [
      | inl behind ↦ rw (at, behind)
      | inr (row, within) ↦
          let below = get_elem?-lt r.task_name i row within in
          rw (at, within)
            (clear_from n (i + 1) _ (length-set r.task_name i _ ∙ h)
              (length-set r.task_has_name i 0 ∙ k) (omega (arith, below)) (omega arith))
    ]

-- With the 30 rows and 100 flags that the struct has, clearing the names of 100 tasks writes behind it, whatever the
-- memory held before: the bounds of `task_name` are the wrong way round.
pub clear_names_fault :
    (r : Repository)
    → length r.task_name ≡ 30
    → length r.task_has_name ≡ 100
    → clear_names r 0 100 ≡ fault
clear_names_fault r h k = clear_from 100 0 r h k (omega arith) (omega arith)

-- A text has no NUL byte.
abbrev pub IsText : List ℕ → Type 0
IsText [] = Unit {0}
IsText (c ∷ name) = (0 < c) × IsText name

c_string-strncpy :
    (n : ℕ) (name rest : List ℕ)
    → IsText name
    → length name < n
    → c_string (strncpy n name ++ rest) ≡ some name
unfolding c_string longer strncpy
c_string-strncpy zero name rest t h = elim h [ ]
c_string-strncpy (suc n) [] rest t h = refl
c_string-strncpy (suc n) (c ∷ name) rest t h =
    let char : (c == 0) ≡ false = ground (arith, t.0) in
    rw (char, c_string-strncpy n name rest t.1 (omega arith), char)

search_name-set :
    (name : List ℕ) (flags : List ℕ) (rows : List (List ℕ)) (new : List ℕ) (t i : ℕ)
    → t < length flags
    → t < length rows
    → c_string new ≡ some name
    → search_name name (take t flags) (take t rows) i ≡ done (negsuc 0)
    → search_name name (set flags t 1) (set rows t new) i ≡ done (pos (i + t))
unfolding search_name
search_name-set name [] rows new t i h k e s = elim h [ ]
search_name-set name (flag ∷ flags) [] new t i h k e s = elim k [ ]
search_name-set name (flag ∷ flags) (row ∷ rows) new zero i h k e s =
    rw (e, equal_bytes_self name) (ap (λ j. done (pos j)) (omega arith))
search_name-set name (flag ∷ flags) (row ∷ rows) new (suc t) i h k e s =
    elim (Bool-cases (flag == 1)) [
      | inr unnamed ↦ rw unnamed (
          search_name-set name flags rows new t (i + 1) (omega arith) (omega arith) e
            (rw unnamed at s)
          ∙ ap (λ j. done (pos j)) (omega arith))
      | inl named ↦ elim (Option-cases (c_string row)) [
        | inl unended ↦
            let wrong : fault ≡ done (negsuc 0) = rw (named, unended) at s in absurd (cc)
        | inr (text, ended) ↦ elim (Bool-cases (equal_bytes name text)) [
          | inl same ↦
              let wrong : done (pos i) ≡ done (negsuc 0) = rw (named, ended, same) at s in
              absurd (cc)
          | inr other ↦
              rw (named, ended, other)
                (search_name-set name flags rows new t (i + 1) (omega arith) (omega arith) e
                    (rw (named, ended, other) at s)
                  ∙ ap (λ j. done (pos j)) (omega arith))
        ]
      ]
    ]

-- After repository_set_name of one of the first 30 tasks, with a text of less than 30 bytes,
-- repository_get_id finds the task by it, if no task of a smaller number had that name.
pub repository_get_id-set_name :
    (r : Repository) (name : List ℕ) (t : ℕ)
    → length r.task_name ≡ 30
    → length r.task_has_name ≡ 100
    → t < 30
    → IsText name
    → length name < 30
    → search_name name (take t r.task_has_name) (take t r.task_name) 0 ≡ done (negsuc 0)
    → (r' : Repository) × (repository_set_name r name t ≡ done r')
      × (repository_get_id r' name ≡ done (pos t))
unfolding repository_set_name repository_get_id write_name write_flag
repository_get_id-set_name r name t h k lt text short s =
    let (row, at) = get_elem?-some r.task_name t (omega arith) in
    let (flag, fl) = get_elem?-some r.task_has_name t (omega arith) in
    let new = strncpy 30 name ++ drop 30 row in
    (
      record { task_name = set r.task_name t new; task_has_name = set r.task_has_name t 1 },
      rw (at, fl),
      search_name-set name r.task_has_name r.task_name new t 0 (omega arith) (omega arith)
            (c_string-strncpy 30 name (drop 30 row) text short) s
          ∙ ap (λ j. done (pos j)) (omega arith),
    )
