-- ===== src/Tasks/SampleSortTask/Threads/Buckets.antt =====
-- The steps of a bucket that leave the root's queue alone.
use francois_gingras_master.Common.{
  ℕ, suc, ◌≡◌, ◌⊎◌, inl, inr, refl, sym, ap, ◌∙◌, true, Bool-cases, some, List, [], ◌∷◌, leb,
  length, set, get_elem?, done, arith,
}
use francois_gingras_master.Messages.Message.{Message}
use francois_gingras_master.System.{with_segment}
use francois_gingras_master.System.Delivery.{segments-with_segment_self, message_immediate-Carries}
use francois_gingras_master.System.Delivery.Lane.{Bears, Bears-Carries}
use francois_gingras_master.Tasks.Dispatch.{receive_by-waits}
use francois_gingras_master.Tasks.Dispatch.Lane.{receive_by-Bears}
use francois_gingras_master.Tasks.BucketTask.Receive
use francois_gingras_master.Tasks.SampleSortTask.Threads.{
  Machine, BucketStep, notifies, receives, BucketThread, Threads, bucket, step, bucket_step,
  bucket_turn, bucket_received,
}
use francois_gingras_master.Tasks.SampleSortTask.Threads.Plan.{Inv}
use francois_gingras_master.Tasks.SampleSortTask.Threads.Setting.{Plan, Knows, Pending, BucketInv}
use francois_gingras_master.Tasks.SampleSortTask.Threads.Stages.{
  Stage, program, awaits, At, expected,
}
use francois_gingras_master.Tasks.SampleSortTask.Threads.Picks.{set_self, steps_left-set}
use francois_gingras_master.Tasks.SampleSortTask.Threads.Takes.{next, Pending-Takes}
use francois_gingras_master.Tasks.SampleSortTask.Threads.Change.{
  Follows, awaits-Follows, Goes, bucket-IsMapped, change_bucket, with_segment_others,
}

module _ (m : Machine) (P : Plan) where
  -- A bucket that waits for a message, and whose queue has one, takes it.
  bucket_takes :
      (c : Threads) (i : ℕ) (t : BucketThread) (inv : Inv m P c)
      (e : get_elem? c.buckets i ≡ some t)
      → (s : Stage) (n : Message) (ns : List Message) (rest : List BucketStep)
      → (let b = inv.each i t e in
          Knows m P s (inv.rs) i (b.ref) t.state
          × Pending m P c.heap (inv.rs) i (b.ref) (n ∷ ns) (expected s) (b.future)
          × Bears (c.shared.segments t.state.task_id) (n ∷ ns) (b.used))
      → awaits s ≡ true
      → program s ≡ receives ∷ rest
      → Follows s rest
      → t.todo ≡ program s
      → Goes m P c (step m (bucket i) c)
  unfolding step bucket_step bucket_turn bucket_received
  bucket_takes c i t inv e s n ns rest (known, pend, bears) aw cont f todo =
      let b = inv.each i t e in
      let id = t.state.task_id in
      let ((handler, sw, tagged, (st', run, known', same)), pend') =
        Pending-Takes m P c.heap (inv.rs) i (b.ref) s t.state n ns (b.future) aw known pend in
      let (q, got, bears') =
        receive_by-Bears (Receive.reaction c.heap) handler t.state st' c.shared c.process (m.at id)
          (P.base id) id n ns (b.used) (bucket-IsMapped m P c inv i id (b.self)) bears tagged sw
          run in
      let t' : BucketThread = record { state = st'; todo = rest } in
      let s' = with_segment c.shared id q in
      let long : t.todo ≡ receives ∷ rest = todo ∙ cont in
      let less = steps_left-set c.buckets i t t' e in
      let size : length t.todo ≡ suc (length rest) = ap length long in
      let mine : BucketInv m P (inv.stage) (inv.rs) c.heap i t' (s'.segments st'.task_id) = record {
        at = next s;
        todo_at = f.next_at;
        self = b.self ∙ ap some (sym same);
        ref = b.ref;
        ref_at = b.ref_at;
        knows = known';
        ns = ns;
        future = b.future;
        used = b.used;
        bears = rw (same, segments-with_segment_self c.shared id q) bears';
        budget = b.budget;
        owed = b.owed;
        pending = pend';
      } in
      (
        record c { shared = s'; buckets = set c.buckets i t' },
        rw (e, long, got) refl,
        change_bucket m P c s' i t t' inv e same
            (f.same_replied ∙ ap (λ l. leb (length l) 3) (sym todo))
            (f.same_ended ∙ ap (λ l. leb (length l) 0) (sym todo)) mine
            (with_segment_others m P c.shared id q),
        omega (arith, less, size),
      )

  -- With no message it goes on waiting.
  bucket_receive_waits :
      (c : Threads) (i : ℕ) (t : BucketThread) (inv : Inv m P c)
      → get_elem? c.buckets i ≡ some t
      → (s : Stage) → t.todo ≡ program s
      → awaits s ≡ true
      → (used : ℕ) → Bears (c.shared.segments t.state.task_id) [] used
      → step m (bucket i) c ≡ done c
  unfolding step bucket_step bucket_turn bucket_received
  bucket_receive_waits c i t inv e s todo aw used bears =
      let id = t.state.task_id in
      let (rest, cont, f) = awaits-Follows s aw in
      let long : t.todo ≡ receives ∷ rest = todo ∙ cont in
      let waits_on =
        receive_by-waits (Receive.reaction c.heap) t.state c.shared c.process (m.at id) (P.base id)
          id (bucket-IsMapped m P c inv i id (inv.each i t e).self)
          (Bears-Carries (c.shared.segments id) [] used bears) in
      rw (e, long, waits_on) refl

  -- message_notify returns once there is a message.
  bucket_notifies :
      (c : Threads) (i : ℕ) (t : BucketThread) (inv : Inv m P c)
      (e : get_elem? c.buckets i ≡ some t)
      → (s : Stage) (ns : List Message)
      → (let b = inv.each i t e in Knows m P s (inv.rs) i (b.ref) t.state)
      → (let b = inv.each i t e in Pending m P c.heap (inv.rs) i (b.ref) ns (expected s) (b.future))
      → (let b = inv.each i t e in Bears (c.shared.segments t.state.task_id) ns (b.used))
      → awaits s ≡ true
      → t.todo ≡ notifies ∷ program s
      → ((step m (bucket i) c ≡ done c) × (ns ≡ [])) ⊎ Goes m P c (step m (bucket i) c)
  unfolding step bucket_step bucket_turn
  bucket_notifies c i t inv e s ns known pend bears aw todo =
      let b = inv.each i t e in
      let id = t.state.task_id in
      let (empty, test, means) =
        message_immediate-Carries c.shared c.process (m.at id) (P.base id) id ns
          (bucket-IsMapped m P c inv i id (b.self))
          (Bears-Carries (c.shared.segments id) ns (b.used) bears) in
      let (rest, cont, f) = awaits-Follows s aw in
      let t' : BucketThread = record { state = t.state; todo = program s } in
      let less = steps_left-set c.buckets i t t' e in
      let size : length t.todo ≡ suc (length (program s)) = ap length todo in
      elim (Bool-cases empty) [
        | inl none_there ↦
            let back : record { state = t.state; todo = notifies ∷ program s } ≡ t =
              ap (λ l. record { state = t.state; todo = l }) (sym todo) in
            let kept : set c.buckets i (record { state = t.state; todo = notifies ∷ program s })
                ≡ c.buckets =
              ap (set c.buckets i) back ∙ set_self c.buckets i t e in
            inl (rw (e, todo, test, none_there, kept) refl, means.0 none_there)
        | inr some_there ↦ inr (
          record c { buckets = set c.buckets i t' },
          rw (e, todo, test, some_there) refl,
          change_bucket m P c c.shared i t t' inv e refl
              (f.notify_replied ∙ ap (λ l. leb (length l) 3) (sym todo))
              (f.notify_ended ∙ ap (λ l. leb (length l) 0) (sym todo))
              (record {
                at = s;
                todo_at = inl refl;
                self = b.self;
                ref = b.ref;
                ref_at = b.ref_at;
                knows = known;
                ns = ns;
                future = b.future;
                used = b.used;
                bears = bears;
                budget = b.budget;
                owed = b.owed;
                pending = pend;
              })
              (λ k other. refl),
          omega (arith, less, size),
        )
      ]

  -- What a bucket at a stage of waiting, with these messages on their way, does.
  pub bucket_waits :
      (c : Threads) (i : ℕ) (t : BucketThread) (inv : Inv m P c)
      (e : get_elem? c.buckets i ≡ some t)
      → (s : Stage) (ns : List Message)
      → (let b = inv.each i t e in
          Knows m P s (inv.rs) i (b.ref) t.state
          × Pending m P c.heap (inv.rs) i (b.ref) ns (expected s) (b.future)
          × Bears (c.shared.segments t.state.task_id) ns (b.used))
      → awaits s ≡ true
      → At s t.todo
      → ((step m (bucket i) c ≡ done c) × (ns ≡ [])) ⊎ Goes m P c (step m (bucket i) c)
  bucket_waits c i t inv e s ns facts aw (inl todo) = receive_now ns facts
    where
      receive_now :
          (ns : List Message)
          → (let b = inv.each i t e in
              Knows m P s (inv.rs) i (b.ref) t.state
              × Pending m P c.heap (inv.rs) i (b.ref) ns (expected s) (b.future)
              × Bears (c.shared.segments t.state.task_id) ns (b.used))
          → ((step m (bucket i) c ≡ done c) × (ns ≡ [])) ⊎ Goes m P c (step m (bucket i) c)
      receive_now [] (known, pend, bears) =
          inl (bucket_receive_waits c i t inv e s todo aw (inv.each i t e).used bears, refl)
      receive_now (n ∷ ns) facts =
          let (rest, cont, f) = awaits-Follows s aw in
          inr (bucket_takes c i t inv e s n ns rest facts aw cont f todo)
  bucket_waits c i t inv e s ns (known, pend, bears) aw (inr (_, todo)) =
      bucket_notifies c i t inv e s ns known pend bears aw todo
