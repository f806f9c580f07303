-- ===== src/Tasks/SampleSortTask/Threads/Takes.antt =====
-- What a bucket does with the message that it expects next.
use francois_gingras_master.Common.{
  ℕ, ◌≤◌, ◌≡◌, refl, ◌∙◌, true, false, negsuc, List, ◌∷◌, take, length, length-take, take-take,
  Outcome, done, leb_ℤ, arith,
}
use francois_gingras_master.Messages.Header.{Heap, Ptr, Place, read_array_owned}
use francois_gingras_master.Messages.RefIntArrayMsg
use francois_gingras_master.Messages.IntArrayMsg
use francois_gingras_master.Messages.Message.{
  Message, topology, ref_int_array, int_array, signal, ref_two_dim, header,
}
use francois_gingras_master.Messages.Message.Transit.{copied}
use francois_gingras_master.Tasks.Dispatch.{handles}
use francois_gingras_master.Tasks.BucketTask.Receive.{
  Bucket, reaction, handle_topology, handle_data_ref, handle_splitter, handle_get_sub_array,
  handle_set_sub_array,
}
use francois_gingras_master.Tasks.BucketTask.Rounds.{handle_set_sub_array-rebuild}
use francois_gingras_master.Tasks.SampleSortTask.{SubArrays}
use francois_gingras_master.Tasks.SampleSortTask.Threads.{Machine, Post}
use francois_gingras_master.Tasks.SampleSortTask.Threads.Setting.{Plan, Pending, Knows}
use francois_gingras_master.Tasks.SampleSortTask.Threads.Stages.{
  Stage, fresh, informed, referred, split, signalled, replied, rebuilt, ended, expected, awaits,
}

-- The stage after the next message.
abbrev pub next : Stage → Stage
next fresh = informed
next informed = referred
next referred = split
next split = signalled
next replied = rebuilt
next s = s

module _ (m : Machine) (P : Plan) (heap : Heap) (rs : List SubArrays) (i : ℕ) (r : ℕ × Ptr) where
  -- The switch knows the tag, the handler succeeds, and the bucket is one stage further.
  abbrev pub Takes : Stage → Bucket → Message → Type 0
  Takes s st n =
      (handler : Bucket → Message → Outcome Bucket) × (reaction heap (header n).tag
        ≡ handles handler)
      × (leb_ℤ (header n).tag (negsuc 0) ≡ false)
      × ((st' : Bucket) × (handler st (copied n) ≡ done st')
          × Knows m P (next s) rs i r st'
          × (st'.task_id ≡ st.task_id))

  pub Pending-Takes :
      (s : Stage) (st : Bucket) (n : Message) (ns : List Message) (future : List Post)
      → awaits s ≡ true
      → Knows m P s rs i r st
      → Pending m P heap rs i r (n ∷ ns) (expected s) future
      → Takes s st n × Pending m P heap rs i r ns (expected (next s)) future
  unfolding reaction handle_topology handle_data_ref handle_splitter handle_get_sub_array
      RefIntArrayMsg.get_size IntArrayMsg.get_size
  Pending-Takes fresh st (topology t) ns future aw known ((tag, count, root, long), h) =
      let fits : t.bucket_count ≤ length t.bucket_ids.items = omega (arith, count) in
      let kept = length-take t.bucket_count t.bucket_ids.items fits in
      let read =
        read_array_owned 0
          (record { place = Place.owned; items = take t.bucket_count t.bucket_ids.items })
          t.bucket_count (omega (arith, kept)) in
      (
        (
          handle_topology,
          rw tag refl,
          rw tag refl,
          (
            record st {
              bucket_count = t.bucket_count;
              bucket_ids = take t.bucket_count (take t.bucket_count t.bucket_ids.items);
              root_id = t.root_id;
            },
            rw read refl,
            (count, root),
            refl,
          ),
        ),
        h,
      )
  Pending-Takes fresh st n ns future aw known (b, h) = absurd b
  Pending-Takes informed st (ref_int_array t) ns future aw known ((tag, size, values), h) = (
    (
      handle_data_ref,
      rw tag refl,
      rw tag refl,
      (record st { data_size = t.size; data_ref = t.values }, refl, (known, (size, values)), refl),
    ),
    h,
  )
  Pending-Takes informed st n ns future aw known (b, h) = absurd b
  Pending-Takes referred st (int_array t) ns future aw known ((tag, same, long), h) =
      let kept = length-take t.size t.values.items long in
      let read =
        read_array_owned 0 (record { place = Place.owned; items = take t.size t.values.items })
          t.size (omega (arith, kept)) in
      (
        (
          handle_splitter,
          rw tag refl,
          rw tag refl,
          (
            record st {
              splitter_size = t.size;
              splitters = take t.size (take t.size t.values.items);
            },
            rw read refl,
            (known.0, known.1, take-take t.size t.values.items ∙ same),
            refl,
          ),
        ),
        h,
      )
  Pending-Takes referred st n ns future aw known (b, h) = absurd b
  Pending-Takes split st (signal t) ns future aw known (tag, h) =
      ((handle_get_sub_array, rw tag refl, rw tag refl, (st, refl, known, refl)), h)
  Pending-Takes split st n ns future aw known (b, h) = absurd b
  Pending-Takes replied st (ref_two_dim t) ns future aw known ((tag, (cs, vs, out, c, b, f)), h) = (
    (
      handle_set_sub_array heap,
      rw tag refl,
      rw tag refl,
      (
        record st { final_data_size = length out; final_data_values = out },
        handle_set_sub_array-rebuild heap st t cs vs out f b,
        (known, (cs, vs, c, b)),
        refl,
      ),
    ),
    h,
  )
  Pending-Takes replied st n ns future aw known (b, h) = absurd b
  Pending-Takes signalled st n ns future aw known h = absurd (cc)
  Pending-Takes rebuilt st n ns future aw known h = absurd h
  Pending-Takes ended st n ns future aw known h = absurd h
