-- ===== src/Tasks/SampleSortTask/Threads/Calm.antt =====
-- The turns of a root that is not interrupted, and the race of the third round.
use mathlib.Core.Path.{subst}
use francois_gingras_master.Common.{
  ℕ, zero, suc, ◌+◌, ◌≤◌, ◌<◌, ◌≡◌, ◌⊎◌, inl, inr, refl, sym, ap, ◌∙◌, true, false, List, [], ◌∷◌,
  ◌++◌, replicate, length, get_elem?, Outcome, done, ◌>>=◌, arith,
}
use francois_gingras_master.Tasks.SampleSortTask.Threads.{Machine, Threads, Turn, bucket, step, run}
use francois_gingras_master.Tasks.SampleSortTask.Threads.Plan.{Inv}
use francois_gingras_master.Tasks.SampleSortTask.Threads.Setting.{Plan}
use francois_gingras_master.Tasks.SampleSortTask.Threads.Picks.{steps_left}
use francois_gingras_master.Tasks.SampleSortTask.Threads.Change.{measure}
use francois_gingras_master.Tasks.SampleSortTask.Threads.Races.{races, ComesToRace, IsRacing-races}
use francois_gingras_master.Tasks.SampleSortTask.Threads.Moves.{turn-Goes}
use francois_gingras_master.Tasks.SampleSortTask.Threads.Unhurried.{
  unhurried, root_step-buckets, bucket_turn-root,
}
use francois_gingras_master.Tasks.SampleSortTask.Threads.Columns.{
  IsBetween, IsCalm, calm_safe, between-IsCalm, stuck-IsBetween,
}

module _ (m : Machine) (P : Plan) where
  -- The threads do not come to a race in the course of these turns.
  abbrev pub Safe : List Turn → Threads → Type 0
  Safe [] c = races c ≡ false
  Safe (u ∷ us) c = (races c ≡ false) × ((c1 : Threads) → step m u c ≡ done c1 → Safe us c1)

  stuck-Safe :
      (n : ℕ) (us : List Turn) (c : Threads)
      → races c ≡ false
      → step m Turn.root c ≡ done c
      → Safe us c
      → Safe (replicate n Turn.root ++ us) c
  stuck-Safe zero us c safe stuck later = later
  stuck-Safe (suc n) us c safe stuck later = (
    safe,
    λ c1 e.
        let same : done c ≡ done c1 = sym stuck ∙ e in
        let is : c ≡ c1 = cc in
        subst (Safe (replicate n Turn.root ++ us)) is (stuck-Safe n us c safe stuck later),
  )

  -- The root takes n turns, and then cannot go on, or has made n steps.
  root_block :
      (n : ℕ) (us : List Turn) (c : Threads)
      → Inv m P c
      → IsCalm m P c
      → ((c' : Threads)
          → Inv m P c'
          → IsCalm m P c'
          → measure c' ≤ measure c
          → (step m Turn.root c' ≡ done c') ⊎ (measure c' + n ≤ measure c)
          → Safe us c')
      → Safe (replicate n Turn.root ++ us) c
  unfolding step
  root_block zero us c inv calm later = later c inv calm (omega arith) (inr (omega arith))
  root_block (suc n) us c inv calm later =
      let safe = calm_safe m P c inv calm in
      elim (turn-Goes m P c Turn.root inv safe) [
        | inl stuck ↦
            stuck-Safe (suc n) us c safe stuck (later c inv calm (omega arith) (inl stuck))
        | inr (c2, s, inv2, less) ↦ (
          safe,
          λ c1 e.
              let same : done c2 ≡ done c1 = sym s ∙ e in
              let is : c2 ≡ c1 = cc in
              let kept : c2.buckets ≡ c.buckets = root_step-buckets m c.root.todo c c2 s in
              let shorter : length c2.root.todo < length c.root.todo =
                omega (arith, less, ap steps_left kept) in
              subst (Safe (replicate n Turn.root ++ us)) is (
                root_block n us c2 inv2 (still_calm c c2 kept shorter calm) (λ c' inv' calm' le q.
                  later c' inv' calm' (omega (arith, le, less)) (elim q [
                    | inl stuck ↦ inl stuck
                    | inr more ↦ inr (omega (arith, more, less))
                  ]))),
        )
      ]
    where
      still_calm :
          (c c2 : Threads)
          → c2.buckets ≡ c.buckets
          → length c2.root.todo < length c.root.todo
          → IsCalm m P c
          → IsCalm m P c2
      still_calm c c2 kept shorter (inl running) =
          inl (λ i t at. running i t (ap (λ l. get_elem? l i) (sym kept) ∙ at))
      still_calm c c2 kept shorter (inr short) = inr (omega arith)

  -- With n more than the steps that are left.
  pub unhurried-Safe :
      (n : ℕ) (us : List Turn) (c : Threads)
      → Inv m P c
      → IsBetween m P c
      → measure c < n
      → Safe (unhurried n us) c
  unfolding unhurried step
  unhurried-Safe n [] c inv b below = calm_safe m P c inv (between-IsCalm m P c inv b)
  unhurried-Safe n (Turn.root ∷ us) c inv b below =
      root_block n (unhurried n us) c inv (between-IsCalm m P c inv b) (λ c' inv' calm le q.
        elim q [
          | inl stuck ↦
              unhurried-Safe n us c' inv' (stuck-IsBetween m P c' inv' calm stuck)
                (omega (arith, le, below))
          | inr more ↦ absurd (omega (arith, more, below))
        ])
  unhurried-Safe n (bucket i ∷ us) c inv b below =
      let safe = calm_safe m P c inv (between-IsCalm m P c inv b) in
      (
        safe,
        λ c1 e. elim (turn-Goes m P c (bucket i) inv safe) [
          | inl still ↦
              let same : done c ≡ done c1 = sym still ∙ e in
              let is : c ≡ c1 = cc in
              subst (Safe (unhurried n us)) is (unhurried-Safe n us c inv b below)
          | inr (c2, s, inv2, less) ↦
              let same : done c2 ≡ done c1 = sym s ∙ e in
              let is : c2 ≡ c1 = cc in
              let kept : c2.root ≡ c.root = bucket_turn-root m (get_elem? c.buckets i) i c c2 s in
              subst (Safe (unhurried n us)) is (
                unhurried-Safe n us c2 inv2 (λ x rest f. b x rest (ap (λ r. r.todo) (sym kept) ∙ f))
                  (omega (arith, less, below)))
        ],
      )

  ends_racing :
      (before after : List Turn) (c c' : Threads)
      → Safe (before ++ after) c
      → run m before c ≡ done c'
      → races c' ≡ false
  unfolding run
  ends_racing [] [] c c' s r = let is : c ≡ c' = cc in subst (λ x. races x ≡ false) is s
  ends_racing [] (u ∷ after) c c' (safe, _) r =
      let is : c ≡ c' = cc in subst (λ x. races x ≡ false) is safe
  ends_racing (u ∷ before) after c c' (safe, later) r =
      go (step m u c) refl r (λ c1 e. ends_racing before after c1 c' (later c1 e))
    where
      go :
          (o : Outcome Threads)
          → step m u c ≡ o
          → (o >>= run m before) ≡ done c'
          → ((c1 : Threads) → step m u c ≡ done c1 → run m before c1 ≡ done c' → races c' ≡ false)
          → races c' ≡ false
      go (done c1) e r h = h c1 e r
      go Outcome.fault e r h = absurd (cc)
      go Outcome.exits e r h = absurd (cc)

  -- Such a schedule does not come to a race.
  pub Safe-ComesToRace : (us : List Turn) (c : Threads) → Safe us c → ComesToRace m us c → ⊥
  Safe-ComesToRace us c s (before, after, c', e, r, racing) =
      let safe = ends_racing before after c c' (subst (λ l. Safe l c) e s) r in
      let clash : true ≡ false = sym (IsRacing-races c' racing) ∙ safe in cc
