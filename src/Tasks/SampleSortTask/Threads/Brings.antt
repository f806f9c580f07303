-- ===== src/Tasks/SampleSortTask/Threads/Brings.antt =====
-- The messages on their way to a bucket, when the heap grows and when a reply comes in.
use mathlib.Core.Path.{subst}
use francois_gingras_master.Common.{ℕ, ◌≡◌, ◌≢◌, refl, sym, ◌∙◌, List, [], ◌∷◌, ◌++◌}
use francois_gingras_master.Messages.Header.{Heap, Ptr}
use francois_gingras_master.Messages.RefTwoDimIntArrayMsg.{RefTwoDimIntArrayMsg}
use francois_gingras_master.Messages.Message.{Message, ref_two_dim}
use francois_gingras_master.Tasks.SampleSortTask.{SubArrays}
use francois_gingras_master.Tasks.SampleSortTask.Rounds.{AllRefer}
use francois_gingras_master.Tasks.SampleSortTask.RoundTwo.{Refers-extend}
use francois_gingras_master.Tasks.SampleSortTask.Threads.{
  Machine, Post, the_topology, the_reference, the_splitters, the_signal, the_column,
}
use francois_gingras_master.Tasks.SampleSortTask.Threads.Setting.{Plan, Brings, Pending}
use francois_gingras_master.Tasks.SampleSortTask.Threads.Stages.{
  Stage, fresh, informed, referred, split, signalled, replied, rebuilt, ended, expected,
}

pub AllRefer-extend :
    (heap new : Heap) (ms : List RefTwoDimIntArrayMsg) (rs : List SubArrays)
    → AllRefer heap ms rs
    → AllRefer (heap ++ new) ms rs
AllRefer-extend heap new [] [] a = tt
AllRefer-extend heap new [] (r ∷ rs) a = absurd a
AllRefer-extend heap new (m ∷ ms) [] a = absurd a
AllRefer-extend heap new (m ∷ ms) ((counts, rows) ∷ rs) (r, a) =
    (Refers-extend heap new m counts rows r, AllRefer-extend heap new ms rs a)

-- A column comes last.
abbrev pub ColumnLast : List Post → Type 0
ColumnLast [] = Unit {0}
ColumnLast (the_column ∷ es) = es ≡ []
ColumnLast (_ ∷ es) = ColumnLast es

pub expected-ColumnLast : (s : Stage) → ColumnLast (expected s)
expected-ColumnLast fresh = refl
expected-ColumnLast informed = refl
expected-ColumnLast referred = refl
expected-ColumnLast split = refl
expected-ColumnLast signalled = refl
expected-ColumnLast replied = refl
expected-ColumnLast rebuilt = tt
expected-ColumnLast ended = tt

module _ (m : Machine) (P : Plan) where
  pub Brings-extend :
      (heap new : Heap) (rs : List SubArrays) (i : ℕ) (r : ℕ × Ptr) (e : Post) (n : Message)
      → Brings m P heap rs i r e n
      → Brings m P (heap ++ new) rs i r e n
  Brings-extend heap new rs i r the_column (ref_two_dim t) (tag, (cs, vs, out, c, b, refers)) =
      (tag, (cs, vs, out, c, b, Refers-extend heap new t cs vs refers))
  Brings-extend heap new rs i r e n h = h

  pub Pending-extend :
      (heap new : Heap) (rs : List SubArrays) (i : ℕ) (r : ℕ × Ptr) (ns : List Message)
      (es future : List Post)
      → Pending m P heap rs i r ns es future
      → Pending m P (heap ++ new) rs i r ns es future
  Pending-extend heap new rs i r [] es future h = h
  Pending-extend heap new rs i r (n ∷ ns) [] future h = absurd h
  Pending-extend heap new rs i r (n ∷ ns) (e ∷ es) future (b, h) =
      (Brings-extend heap new rs i r e n b, Pending-extend heap new rs i r ns es future h)

  pub Brings-arrive :
      (heap : Heap) (rs rs' : List SubArrays) (i : ℕ) (r : ℕ × Ptr) (e : Post) (n : Message)
      → e ≢ the_column
      → Brings m P heap rs i r e n
      → Brings m P heap rs' i r e n
  Brings-arrive heap rs rs' i r the_column n other h = absurd (other refl)
  Brings-arrive heap rs rs' i r the_topology n other h = topo n h
    where
      topo :
          (n : Message)
          → Brings m P heap rs i r the_topology n
          → Brings m P heap rs' i r the_topology n
      topo (Message.topology t) h = h
      topo n h = h
  Brings-arrive heap rs rs' i r the_reference n other h = refs n h
    where
      refs :
          (n : Message)
          → Brings m P heap rs i r the_reference n
          → Brings m P heap rs' i r the_reference n
      refs (Message.ref_int_array t) h = h
      refs n h = h
  Brings-arrive heap rs rs' i r the_splitters n other h = splits n h
    where
      splits :
          (n : Message)
          → Brings m P heap rs i r the_splitters n
          → Brings m P heap rs' i r the_splitters n
      splits (Message.int_array t) h = h
      splits n h = h
  Brings-arrive heap rs rs' i r the_signal n other h = signals n h
    where
      signals :
          (n : Message) → Brings m P heap rs i r the_signal n → Brings m P heap rs' i r the_signal n
      signals (Message.signal t) h = h
      signals n h = h

  pub Pending-arrive :
      (heap : Heap) (rs rs' : List SubArrays) (i : ℕ) (r : ℕ × Ptr) (ns : List Message)
      (es future : List Post)
      → ColumnLast es
      → future ≢ []
      → Pending m P heap rs i r ns es future
      → Pending m P heap rs' i r ns es future
  Pending-arrive heap rs rs' i r [] es future c owing h = h
  Pending-arrive heap rs rs' i r (n ∷ ns) [] future c owing h = absurd h
  Pending-arrive heap rs rs' i r (n ∷ []) (the_column ∷ es) future c owing (b, h) =
      absurd (owing (sym h ∙ c))
  Pending-arrive heap rs rs' i r (n ∷ n' ∷ ns) (the_column ∷ []) future c owing (b, h) = absurd h
  Pending-arrive heap rs rs' i r (n ∷ n' ∷ ns) (the_column ∷ e' ∷ es) future c owing (b, h) =
      absurd (cc)
  Pending-arrive heap rs rs' i r (n ∷ ns) (the_topology ∷ es) future c owing (b, h) = (
    Brings-arrive heap rs rs' i r the_topology n (λ z. cc) b,
    Pending-arrive heap rs rs' i r ns es future c owing h,
  )
  Pending-arrive heap rs rs' i r (n ∷ ns) (the_reference ∷ es) future c owing (b, h) = (
    Brings-arrive heap rs rs' i r the_reference n (λ z. cc) b,
    Pending-arrive heap rs rs' i r ns es future c owing h,
  )
  Pending-arrive heap rs rs' i r (n ∷ ns) (the_splitters ∷ es) future c owing (b, h) = (
    Brings-arrive heap rs rs' i r the_splitters n (λ z. cc) b,
    Pending-arrive heap rs rs' i r ns es future c owing h,
  )
  Pending-arrive heap rs rs' i r (n ∷ ns) (the_signal ∷ es) future c owing (b, h) = (
    Brings-arrive heap rs rs' i r the_signal n (λ z. cc) b,
    Pending-arrive heap rs rs' i r ns es future c owing h,
  )

  -- One more message, which brings what was owed next.
  pub Pending-snoc :
      (heap : Heap) (rs : List SubArrays) (i : ℕ) (r : ℕ × Ptr) (ns : List Message) (es : List Post)
      (p : Post) (future : List Post) (n : Message)
      → Pending m P heap rs i r ns es (p ∷ future)
      → Brings m P heap rs i r p n
      → Pending m P heap rs i r (ns ++ (n ∷ [])) es future
  Pending-snoc heap rs i r [] es p future n h b =
      subst (λ l. Pending m P heap rs i r (n ∷ []) l future) (sym h) (b, refl)
  Pending-snoc heap rs i r (x ∷ ns) [] p future n h b = absurd h
  Pending-snoc heap rs i r (x ∷ ns) (e ∷ es) p future n (c, h) b =
      (c, Pending-snoc heap rs i r ns es p future n h b)

  -- With nothing expected nothing is owed.
  pub Pending-nothing :
      (heap : Heap) (rs : List SubArrays) (i : ℕ) (r : ℕ × Ptr) (ns : List Message)
      (future : List Post)
      → Pending m P heap rs i r ns [] future
      → (ns ≡ []) × (future ≡ [])
  Pending-nothing heap rs i r [] future h = (refl, sym h)
  Pending-nothing heap rs i r (n ∷ ns) future h = absurd h
