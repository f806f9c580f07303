-- ===== src/Tasks/SampleSortTask/Threads/Columns.antt =====
-- When the root is about to build a column, and whether a bucket has returned then.
use mathlib.Core.Path.{subst}
use native.Mathlib.Decide.{dec_lt}
use francois_gingras_master.Common.{
  ℕ, zero, suc, ◌+◌, ◌*◌, ◌≤◌, ◌≡◌, ◌≢◌, ◌⊎◌, inl, inr, refl, sym, ap, ◌∙◌, Bool-cases, false, some,
  List, [], ◌∷◌, length, get_elem?, done, arith, leb,
}
use francois_gingras_master.Tasks.SampleSortTask.Threads.{
  Machine, Post, the_topology, the_reference, the_splitters, the_signal, the_column, BucketThread,
  RootStep, posts, posts_from, collects, Threads, Turn, step,
}
use francois_gingras_master.Tasks.SampleSortTask.Threads.Plan.{Inv, RootAt, IsStage}
use francois_gingras_master.Tasks.SampleSortTask.Threads.Setting.{Plan}
use francois_gingras_master.Tasks.SampleSortTask.Threads.Stages.{
  RootStage, posting, clearing, collecting, ending, Owed, owed_from, owed_after,
}
use francois_gingras_master.Tasks.SampleSortTask.Threads.Change.{measure}
use francois_gingras_master.Tasks.SampleSortTask.Threads.Counting.{
  length-posts_from, length-collects,
}
use francois_gingras_master.Tasks.SampleSortTask.Threads.Progress.{IsOpen, opened, still_running}
use francois_gingras_master.Tasks.SampleSortTask.Threads.Races.{races, IsRacing, races_lem}
use francois_gingras_master.Tasks.SampleSortTask.Threads.Root.{root_posts}

module _ (m : Machine) (P : Plan) where
  -- The root is not about to build a column.
  abbrev pub IsBetween : Threads → Type 0
  IsBetween c = (x : ℕ) (rest : List RootStep) → c.root.todo ≢ posts the_column x ∷ rest

  -- No bucket has returned, or the root has built all columns.
  abbrev pub IsCalm : Threads → Type 0
  IsCalm c =
      ((i : ℕ) (t : BucketThread) → get_elem? c.buckets i ≡ some t → t.todo ≢ [])
      ⊎ (length c.root.todo ≤ 2 * suc (P.k))

  -- A root that is about to build a column is in the loop of the columns.
  abbrev pub InColumns : Threads → Type 0
  InColumns c =
      (inv : Inv m P c) × (x : ℕ) × (n : ℕ) × (inv.stage ≡ posting the_column x (suc n))
      × (length c.root.todo ≡ suc n + 2 * suc (P.k))

  pub column_at :
      (c : Threads) (inv : Inv m P c) (stage : RootStage)
      → inv.stage ≡ stage
      → IsOpen m P stage
      → RootAt m P stage c.root.todo
      → (x : ℕ) (rest : List RootStep) → c.root.todo ≡ posts the_column x ∷ rest
      → InColumns c
  unfolding posts_from collects
  column_at c inv (posting the_column x' (suc n)) at o (inl e) x rest f =
      let end = collects (suc (P.k)) [] in
      (
        inv,
        x',
        n,
        at,
        ap length e
            ∙ omega (
              arith,
              length-posts_from the_column (x' + 1) n end,
              length-collects (suc (P.k)) [],
            ),
      )
  column_at c inv (posting p x' zero) at o todo x rest f = absurd (omega arith)
  column_at c inv (posting the_column x' (suc n)) at o (inr (after, e, f)) x rest g = absurd (cc)
  column_at c inv (posting the_topology x' (suc n)) at o (inl e) x rest f =
      let clash = sym e ∙ f in absurd (cc)
  column_at c inv (posting the_topology x' (suc n)) at o (inr (after, e, f)) x rest g = absurd (cc)
  column_at c inv (posting the_reference x' (suc n)) at o (inl e) x rest f =
      let clash = sym e ∙ f in absurd (cc)
  column_at c inv (posting the_reference x' (suc n)) at o (inr (after, e, f)) x rest g = absurd (cc)
  column_at c inv (posting the_splitters x' (suc n)) at o (inl e) x rest f =
      let clash = sym e ∙ f in absurd (cc)
  column_at c inv (posting the_splitters x' (suc n)) at o (inr (after, e, f)) x rest g = absurd (cc)
  column_at c inv (posting the_signal x' (suc n)) at o (inl e) x rest f =
      let clash = sym e ∙ f in absurd (cc)
  column_at c inv (posting the_signal x' (suc n)) at o (inr (after, e, f)) x rest g = absurd (cc)
  column_at c inv clearing at o (inl e) x rest f = let clash = sym e ∙ f in absurd (cc)
  column_at c inv clearing at o (inr (after, e, f)) x rest g = absurd (cc)
  column_at c inv (collecting zero) at o todo x rest f = absurd (omega arith)
  column_at c inv (collecting (suc n)) at o (inl e) x rest f = let clash = sym e ∙ f in absurd (cc)
  column_at c inv (collecting (suc n)) at o (inr (after, e, f)) x rest g =
      let clash = sym f ∙ g in absurd (cc)
  column_at c inv (ending zero) at o (inl e) x rest f = let clash = sym e ∙ f in absurd (cc)
  column_at c inv (ending zero) at o (inr (after, e, f)) x rest g = absurd (cc)
  column_at c inv (ending (suc n)) at o (inl e) x rest f = let clash = sym e ∙ f in absurd (cc)
  column_at c inv (ending (suc n)) at o (inr (after, e, f)) x rest g =
      let clash = sym f ∙ g in absurd (cc)

  pub in_columns :
      (c : Threads)
      → Inv m P c
      → (x : ℕ) (rest : List RootStep) → c.root.todo ≡ posts the_column x ∷ rest
      → InColumns c
  in_columns c inv x rest f =
      let (inv', o) = opened m P c inv in
      column_at c inv' (inv'.stage) refl o (inv'.todo_at) x rest f

  pub calm_races : (c : Threads) → Inv m P c → IsCalm c → IsRacing c → ⊥
  calm_races c inv (inl running) (x, rest, i, t, todo, at, over) = running i t at over
  calm_races c inv (inr short) (x, rest, i, t, todo, at, over) =
      let (inv', x', n, stage, long) = in_columns c inv x rest todo in omega arith

  pub calm_safe : (c : Threads) → Inv m P c → IsCalm c → races c ≡ false
  calm_safe c inv calm = elim (Bool-cases (races c)) [
    | inl race ↦ absurd (calm_races c inv calm (races_lem c race))
    | inr safe ↦ safe
  ]

  pub runs :
      (c : Threads) (inv : Inv m P c)
      → ((i : ℕ) (future : List Post) → Owed (inv.stage) i future → future ≢ [])
      → (i : ℕ) (t : BucketThread) → get_elem? c.buckets i ≡ some t
      → t.todo ≢ []
  runs c inv owing i t e over =
      let behind : leb (length t.todo) 0 ≡ false = still_running m P c inv owing i t e in
      let size : length t.todo ≡ 0 = ap length over in absurd (ground (arith, behind, size))

  pub posts_running :
      (c : Threads) (inv : Inv m P c) (p : Post) (x n : ℕ)
      → inv.stage ≡ posting p x n
      → owed_after p ≢ []
      → owed_from p ≢ []
      → (i : ℕ) (t : BucketThread) → get_elem? c.buckets i ≡ some t
      → t.todo ≢ []
  posts_running c inv p x n at after from = runs c inv (λ i f owed z.
      let (before, later) = subst (λ s. Owed s i f) at owed in
      elim (dec_lt i x) [
        | yes h ↦ after (sym (before h) ∙ z)
        | no h ↦ from (sym (later (omega arith)) ∙ z)
      ])

  pub between-IsCalm_at :
      (c : Threads) (inv : Inv m P c) (stage : RootStage)
      → inv.stage ≡ stage
      → IsOpen m P stage
      → RootAt m P stage c.root.todo
      → IsStage m P stage
      → IsBetween c
      → IsCalm c
  unfolding posts_from collects
  between-IsCalm_at c inv (posting p x zero) at o todo is b = absurd (omega arith)
  between-IsCalm_at c inv (posting the_column x (suc n)) at o (inl e) is b = absurd (b x _ e)
  between-IsCalm_at c inv (posting the_column x (suc n)) at o (inr (after, e, f)) is b = absurd (cc)
  between-IsCalm_at c inv (posting the_topology x (suc n)) at o todo is b =
      inl (posts_running c inv the_topology x (suc n) at (λ z. cc) (λ z. cc))
  between-IsCalm_at c inv (posting the_reference x (suc n)) at o todo is b =
      inl (posts_running c inv the_reference x (suc n) at (λ z. cc) (λ z. cc))
  between-IsCalm_at c inv (posting the_splitters x (suc n)) at o todo is b =
      inl (posts_running c inv the_splitters x (suc n) at (λ z. cc) (λ z. cc))
  between-IsCalm_at c inv (posting the_signal x (suc n)) at o todo is b =
      inl (posts_running c inv the_signal x (suc n) at (λ z. cc) (λ z. cc))
  between-IsCalm_at c inv clearing at o todo is b =
      inl (runs c inv (λ i f owed z. let clash = sym z ∙ subst (λ s. Owed s i f) at owed in cc))
  between-IsCalm_at c inv (collecting n) at o todo is b =
      inl (runs c inv (λ i f owed z. let clash = sym z ∙ subst (λ s. Owed s i f) at owed in cc))
  between-IsCalm_at c inv (ending n) at o (inl e) is b =
      inr (omega (arith, ap length e, length-collects n []))
  between-IsCalm_at c inv (ending n) at o (inr (after, e, f)) is b =
      inr (omega (arith, ap length e, ap length f, length-collects n []))

  pub between-IsCalm : (c : Threads) → Inv m P c → IsBetween c → IsCalm c
  between-IsCalm c inv b =
      let (inv', o) = opened m P c inv in
      between-IsCalm_at c inv' (inv'.stage) refl o (inv'.todo_at) (inv'.is_stage) b

  -- A root that cannot go on is not about to build a column.
  pub stuck-IsBetween :
      (c : Threads) → Inv m P c → IsCalm c → step m Turn.root c ≡ done c → IsBetween c
  stuck-IsBetween c inv calm stuck x rest todo =
      let (inv', x', n, at, long) = in_columns c inv x rest todo in
      let (c', e, inv'', less) = root_posts m P c inv' the_column x' n at (calm_safe c inv calm) in
      let same : done c ≡ done c' = sym stuck ∙ e in
      let is : c ≡ c' = cc in omega (arith, ap measure is)
