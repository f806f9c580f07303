-- ===== src/Tasks/SampleSortTask/Threads/Runs.antt =====
-- Schedules of the threads of a sample sort, turn after turn.
use mathlib.Core.Path.{subst}
use francois_gingras_master.Common.{
  replicate, append_assoc, map, sym, ◌∙◌, ℕ, suc, ◌<◌, ◌≡◌, ◌⊎◌, inl, inr, refl, ap, true, false,
  List, [], ◌∷◌, ◌++◌, length, Outcome, done, ◌>>=◌, leb, arith, Bool-cases,
}
use francois_gingras_master.Tasks.SampleSortTask.Threads.{
  Machine, BucketStep, Threads, Turn, bucket, step, run,
}
use francois_gingras_master.Tasks.SampleSortTask.Threads.Plan.{Inv}
use francois_gingras_master.Tasks.SampleSortTask.Threads.Setting.{Plan}
use francois_gingras_master.Tasks.SampleSortTask.Threads.Stages.{
  Stage, fresh, informed, referred, split, signalled, replied, rebuilt, ended, At,
}
use francois_gingras_master.Tasks.SampleSortTask.Threads.Change.{measure}
use mathlib.Core.List.{flatten}
use francois_gingras_master.Tasks.SampleSortTask.Threads.Unhurried.{unhurried}
use francois_gingras_master.Tasks.SampleSortTask.Threads.Races.{
  races, ComesToRace, race_now, race_later,
}
use francois_gingras_master.Tasks.SampleSortTask.Threads.Moves.{turn-Goes}

-- A turn is in a list.
abbrev pub Has : Turn → List Turn → Type 0
Has t [] = ⊥
Has t (u ∷ us) = (u ≡ t) ⊎ Has t us

-- Every thread of suc k buckets and the root has a turn in the round.
abbrev pub IsRound : ℕ → List Turn → Type 0
IsRound k us = Has Turn.root us × ((i : ℕ) → i < suc k → Has (bucket i) us)

abbrev pub AreRounds : ℕ → List (List Turn) → Type 0
AreRounds k [] = Unit {0}
AreRounds k (us ∷ rounds) = IsRound k us × AreRounds k rounds

unhurried-append :
    (n : ℕ) (us vs : List Turn) → unhurried n (us ++ vs) ≡ unhurried n us ++ unhurried n vs
unfolding unhurried
unhurried-append n [] vs = refl
unhurried-append n (Turn.root ∷ us) vs =
    ap (λ l. replicate n Turn.root ++ l) (unhurried-append n us vs)
    ∙ sym (append_assoc (replicate n Turn.root) (unhurried n us) (unhurried n vs))
unhurried-append n (bucket i ∷ us) vs = ap (λ l. bucket i ∷ l) (unhurried-append n us vs)

pub unhurried-flatten :
    (n : ℕ) (rounds : List (List Turn))
    → unhurried n (flatten rounds) ≡ flatten (map (unhurried n) rounds)
unfolding unhurried flatten
unhurried-flatten n [] = refl
unhurried-flatten n (us ∷ rounds) =
    unhurried-append n us (flatten rounds)
    ∙ ap (λ l. unhurried n us ++ l) (unhurried-flatten n rounds)

Has-later : (t : Turn) (us vs : List Turn) → Has t vs → Has t (us ++ vs)
Has-later t [] vs h = h
Has-later t (u ∷ us) vs h = inr (Has-later t us vs h)

Has-unhurried : (n : ℕ) (t : Turn) (us : List Turn) → Has t us → Has t (unhurried (suc n) us)
unfolding unhurried
Has-unhurried n t [] h = h
Has-unhurried n t (Turn.root ∷ us) (inl here) = inl here
Has-unhurried n t (Turn.root ∷ us) (inr later) =
    inr (Has-later t (replicate n Turn.root) (unhurried (suc n) us) (Has-unhurried n t us later))
Has-unhurried n t (bucket i ∷ us) (inl here) = inl here
Has-unhurried n t (bucket i ∷ us) (inr later) = inr (Has-unhurried n t us later)

pub AreRounds-unhurried :
    (k n : ℕ) (rounds : List (List Turn))
    → AreRounds k rounds
    → AreRounds k (map (unhurried (suc n)) rounds)
AreRounds-unhurried k n [] are = are
AreRounds-unhurried k n (us ∷ rounds) ((first, each), are) = (
  (Has-unhurried n Turn.root us first, λ i h. Has-unhurried n (bucket i) us (each i h)),
  AreRounds-unhurried k n rounds are,
)

pub length-nothing : (l : List BucketStep) → leb (length l) 0 ≡ true → l ≡ []
length-nothing [] e = refl
length-nothing (x ∷ l) e = let no_more : false ≡ true = ground arith in absurd (cc)

pub >>=-run :
    (m : Machine) (ts us : List Turn)
    → ((c : Threads) → run m (ts ++ us) c ≡ (run m ts c >>= run m us))
    → (o : Outcome Threads) → (o >>= run m (ts ++ us)) ≡ ((o >>= run m ts) >>= run m us)
>>=-run m ts us h (done c) = h c
>>=-run m ts us h Outcome.fault = refl
>>=-run m ts us h Outcome.exits = refl

pub run-append :
    (m : Machine) (ts us : List Turn) (c : Threads) → run m (ts ++ us) c ≡ (run m ts c >>= run m us)
unfolding run
run-append m [] us c = refl
run-append m (t ∷ ts) us c = >>=-run m ts us (run-append m ts us) (step m t c)

pub At-nothing : (s : Stage) → At s [] → s ≡ ended
At-nothing ended a = refl
At-nothing fresh (inl e) = cc
At-nothing fresh (inr (aw, e)) = cc
At-nothing informed (inl e) = cc
At-nothing informed (inr (aw, e)) = cc
At-nothing referred (inl e) = cc
At-nothing referred (inr (aw, e)) = cc
At-nothing split (inl e) = cc
At-nothing split (inr (aw, e)) = cc
At-nothing signalled (inl e) = cc
At-nothing signalled (inr (aw, e)) = cc
At-nothing replied (inl e) = cc
At-nothing replied (inr (aw, e)) = cc
At-nothing rebuilt (inl e) = cc
At-nothing rebuilt (inr (aw, e)) = cc

module _ (m : Machine) (P : Plan) where
  -- What a round comes to: nothing has changed and no turn changes anything, or less is left to do.
  abbrev pub Round : List Turn → Threads → Threads → Type 0
  Round us c c' =
      ((c' ≡ c) × ((t : Turn) → Has t us → step m t c ≡ done c)) ⊎ (measure c' < measure c)

  -- The turns succeed and what holds of the threads holds afterwards.
  abbrev pub GoesOn : List Turn → Threads → Type 0
  GoesOn us c = (c' : Threads) × (run m us c ≡ done c') × Inv m P c' × Round us c c'

  after_still :
      (u : Turn) (us : List Turn) (c : Threads)
      → step m u c ≡ done c
      → GoesOn us c
      → GoesOn (u ∷ us) c
  unfolding run
  after_still u us c same (c', e, inv', o) = (
    c',
    rw same e,
    inv',
    elim o [
      | inl (still, stay) ↦ inl (
        still,
        λ t h. elim h [
          | inl here ↦ subst (λ x. step m x c ≡ done c) here same
          | inr there ↦ stay t there
        ],
      )
      | inr less ↦ inr less
    ],
  )

  after_move :
      (u : Turn) (us : List Turn) (c c1 : Threads)
      → step m u c ≡ done c1
      → measure c1 < measure c
      → GoesOn us c1
      → GoesOn (u ∷ us) c
  unfolding run
  after_move u us c c1 s fewer (c', e, inv', o) = (
    c',
    rw s e,
    inv',
    elim o [
      | inl (still, stay) ↦ inr (omega (arith, ap measure still))
      | inr less ↦ inr (omega arith)
    ],
  )

  -- Under every schedule, until the threads come to a race.
  pub run_goes : (us : List Turn) (c : Threads) → Inv m P c → GoesOn us c ⊎ ComesToRace m us c
  unfolding run
  run_goes [] c inv = inl (c, refl, inv, inl (refl, λ t h. absurd h))
  run_goes (u ∷ us) c inv = elim (Bool-cases (races c)) [
    | inl race ↦ inr (race_now m (u ∷ us) c race)
    | inr safe ↦ elim (turn-Goes m P c u inv safe) [
      | inl same ↦ elim (run_goes us c inv) [
        | inl goes ↦ inl (after_still u us c same goes)
        | inr race ↦ inr (race_later m u us c c same race)
      ]
      | inr (c1, s, inv1, fewer) ↦ elim (run_goes us c1 inv1) [
        | inl goes ↦ inl (after_move u us c c1 s fewer goes)
        | inr race ↦ inr (race_later m u us c c1 s race)
      ]
    ]
  ]
