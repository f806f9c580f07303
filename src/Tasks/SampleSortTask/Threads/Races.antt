-- ===== src/Tasks/SampleSortTask/Threads/Races.antt =====
-- The race of the third round: a bucket may return from `start` while the root still has columns to
-- build, for which it reads an array on that bucket's stack.
use mathlib.Core.Path.{subst}
use francois_gingras_master.Common.{
  ℕ, suc, zero, ◌≡◌, refl, ap, ◌∙◌, inl, inr, Bool, Bool-cases, true, false, List, [], ◌∷◌, ◌++◌,
  append_assoc, length, some, get_elem?, done, leb, arith,
}
use francois_gingras_master.Tasks.SampleSortTask.Threads.{
  Machine, Post, the_topology, the_reference, the_splitters, the_signal, the_column, BucketThread,
  RootStep, posts, clears, Threads, Turn, BucketStep, step, has_returned, any_returned, dangles,
  run,
}

-- The root's next step reads the stack of a thread that has returned.
unfoldable pub next_dangles : List RootStep → List BucketThread → Bool
unfolding dangles
next_dangles [] ts = false
next_dangles (posts post i ∷ rest) ts = dangles post ts
next_dangles (_ ∷ rest) ts = false

unfoldable pub races : Threads → Bool
unfolding next_dangles
races c = next_dangles c.root.todo c.buckets

-- The root is about to build a column, and a bucket has returned.
abbrev pub IsRacing : Threads → Type 0
IsRacing c =
    (x : ℕ) × (rest : List RootStep) × (i : ℕ) × (t : BucketThread) × (c.root.todo
      ≡ posts the_column x ∷ rest)
    × (get_elem? c.buckets i ≡ some t)
    × (t.todo ≡ [])

-- The threads come to such a state in the course of these turns.
abbrev pub ComesToRace : Machine → List Turn → Threads → Type 0
ComesToRace m turns c =
    (before : List Turn) × (after : List Turn) × (c' : Threads) × (turns ≡ before ++ after)
    × (run m before c ≡ done c')
    × IsRacing c'

returned_one :
    (ts : List BucketThread)
    → any_returned ts ≡ true
    → (i : ℕ) × (t : BucketThread) × (get_elem? ts i ≡ some t) × (t.todo ≡ [])
unfolding any_returned
returned_one [] h = cc
returned_one (t ∷ ts) h = elim (Bool-cases (has_returned t)) [
  | inl over ↦ (zero, t, refl, nothing t.todo over)
  | inr running ↦
      let later : any_returned ts ≡ true = rw running at h in
      let (i, u, e, over) = returned_one ts later in (suc i, u, e, over)
]
  where
    nothing : (l : List BucketStep) → leb (length l) 0 ≡ true → l ≡ []
    nothing [] e = refl
    nothing (x ∷ l) e = let no_more : false ≡ true = ground arith in absurd (cc)

dangles_column : (p : Post) (ts : List BucketThread) → dangles p ts ≡ true → p ≡ the_column
unfolding dangles
dangles_column the_column ts h = refl
dangles_column the_topology ts h = cc
dangles_column the_reference ts h = cc
dangles_column the_splitters ts h = cc
dangles_column the_signal ts h = cc

pub races_lem : (c : Threads) → races c ≡ true → IsRacing c
unfolding races next_dangles dangles
races_lem c h = from c.root.todo refl h
  where
    from :
        (todo : List RootStep)
        → c.root.todo ≡ todo
        → next_dangles todo c.buckets ≡ true
        → IsRacing c
    from [] e h = cc
    from (posts p x ∷ rest) e h =
        let column = dangles_column p c.buckets h in
        let (i, t, at, over) =
          returned_one c.buckets (subst (λ q. dangles q c.buckets ≡ true) column h) in
        (x, rest, i, t, e ∙ ap (λ q. posts q x ∷ rest) column, at, over)
    from (clears ∷ rest) e h = cc
    from (RootStep.notifies ∷ rest) e h = cc
    from (RootStep.receives ∷ rest) e h = cc

one_returned :
    (ts : List BucketThread) (i : ℕ) (t : BucketThread)
    → get_elem? ts i ≡ some t
    → t.todo ≡ []
    → any_returned ts ≡ true
unfolding any_returned
one_returned [] i t e over = absurd (cc)
one_returned (u ∷ ts) zero t e over =
    let is : u ≡ t = cc in let empty : u.todo ≡ [] = ap (λ x. x.todo) is ∙ over in rw empty refl
one_returned (u ∷ ts) (suc i) t e over = elim (Bool-cases (has_returned u)) [
  | inl done_already ↦ rw done_already refl
  | inr running ↦ rw running (one_returned ts i t e over)
]

pub IsRacing-races : (c : Threads) → IsRacing c → races c ≡ true
unfolding races next_dangles dangles
IsRacing-races c (x, rest, i, t, todo, at, over) = rw todo (one_returned c.buckets i t at over)

module _ (m : Machine) where
  pub race_now : (turns : List Turn) (c : Threads) → races c ≡ true → ComesToRace m turns c
  unfolding run
  race_now turns c h = ([], turns, c, refl, refl, races_lem c h)

  pub race_later :
      (u : Turn) (us : List Turn) (c c1 : Threads)
      → step m u c ≡ done c1
      → ComesToRace m us c1
      → ComesToRace m (u ∷ us) c
  unfolding run
  race_later u us c c1 s (before, after, c', e, r, racing) =
      (u ∷ before, after, c', ap (λ l. u ∷ l) e, rw s r, racing)

  pub race_before :
      (us vs : List Turn) (c : Threads) → ComesToRace m us c → ComesToRace m (us ++ vs) c
  race_before us vs c (before, after, c', e, r, racing) =
      (before, after ++ vs, c', ap (λ l. l ++ vs) e ∙ append_assoc before after vs, r, racing)
