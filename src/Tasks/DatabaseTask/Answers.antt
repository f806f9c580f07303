-- ===== src/Tasks/DatabaseTask/Answers.antt =====
-- The response that a request leaves can always be built and sent.
use francois_gingras_master.Common.{
  length-take, ℕ, ◌<◌, ◌≡◌, refl, ap, sym, ◌∙◌, ◌⊎◌, inl, inr, true, Bool-cases, Option-cases,
  Option, fault, none, some, pos, List, length, take, get_elem?, get_elem?-some, done, leb, ltb,
  arith,
}
use francois_gingras_master.Messages.RequestMsg.{RequestMsg}
use francois_gingras_master.Messages.ResponseMsg.{ResponseMsg}
use francois_gingras_master.Messages.ResponseMsg
use francois_gingras_master.Messages.Message.{response}
use francois_gingras_master.Messages.Message.Law.{IsReady}
use francois_gingras_master.Tasks.DatabaseTask.{
  Database, max_student, find, set_response, select, select_found, insert, insert_info,
  store_student, serve, handle_request, respond, response_bytes,
}
use francois_gingras_master.Tasks.DatabaseTask.Slots.{find-lt, length-take_rows}
use francois_gingras_master.Tasks.DatabaseTask.Requests.{
  IsTable, IsFit, answer, copy_out_owned, requested, requested-IsTable, handle_request-IsTable,
}

-- No data, or a whole slot of the table.
abbrev pub HasAnswer : Database → Type 0
HasAnswer db =
    (db.response_size ≡ 0)
    ⊎ ((i : ℕ) × (db.response_data ≡ some i) × (i < 1000) × (db.response_size ≡ 48))

-- The response is ready, and is 80 bytes without data and 128 with a slot.
pub respond-IsReady :
    (db : Database)
    → IsTable db
    → HasAnswer db
    → (res : ResponseMsg) × (respond db ≡ done (res, db.current_requester_task_id))
      × (res.code ≡ db.response_code)
      × (res.tag ≡ pos 1)
      × ((res.msg_size ≡ 80) ⊎ (res.msg_size ≡ 128))
      × IsReady (response res)
unfolding respond response_bytes ResponseMsg.create ResponseMsg.set_data
respond-IsReady db t (inl e) = (
  record (ResponseMsg.create (pos 1)) { code = db.response_code },
  rw e,
  refl,
  refl,
  inl refl,
  record {
    sound = record { classed = refl; sized = omega arith };
    bound = refl;
    small = omega arith;
    owns = refl;
  },
)
respond-IsReady db t (inr (i, d, lt, e)) =
    let (slot, at) = get_elem?-some db.students i (omega (arith, t.slots)) in
    let size = t.sized i slot at in
    let long : leb 48 (length slot) ≡ true = ground (arith, size) in
    (
      record (answer slot) { code = db.response_code },
      rw (e, d, at, long),
      refl,
      refl,
      inr refl,
      record {
        sound = record { classed = refl; sized = omega arith };
        bound = refl;
        small = omega arith;
        owns = omega (arith, length-take 48 slot);
      },
    )

select_found-HasAnswer :
    (db : Database) (id : List ℕ) (found : Option ℕ)
    → IsTable db
    → find (take db.student_count db.students) id 0 ≡ found
    → HasAnswer (select_found db found)
unfolding select_found set_response
select_found-HasAnswer db id none t e = inl refl
select_found-HasAnswer db id (some i) t e = inr (
  i,
  refl,
  omega (
    arith,
    find-lt (take db.student_count db.students) id 0 i e,
    length-take_rows db.student_count db.students,
    t.slots,
  ),
  refl,
)

select_found_requester :
    (db : Database) (found : Option ℕ)
    → (select_found db found).current_requester_task_id ≡ db.current_requester_task_id
unfolding select_found set_response
select_found_requester db none = refl
select_found_requester db (some i) = refl

insert_info-HasAnswer :
    (db db' : Database) (info : List ℕ)
    → insert_info db info ≡ done db'
    → HasAnswer db' × (db'.current_requester_task_id ≡ db.current_requester_task_id)
unfolding insert_info set_response store_student
insert_info-HasAnswer db db' info e = elim (Bool-cases (ltb db.student_count max_student)) [
  | inl room ↦ elim (Option-cases (get_elem? db.students db.student_count)) [
    | inl outside ↦ let failed : insert_info db info ≡ fault = rw (room, outside) in absurd (cc)
    | inr (slot, at) ↦
        let kept : insert_info db info
            ≡ done (set_response (store_student db info slot) (pos 1) none 0) =
          rw (room, at) in
        let same : set_response (store_student db info slot) (pos 1) none 0 ≡ db' = cc in
        (
          inl (sym (ap (λ d. d.response_size) same)),
          sym (ap (λ d. d.current_requester_task_id) same),
        )
  ]
  | inr full ↦
      let kept : insert_info db info ≡ done (set_response db (pos 0) none 0) = rw full in
      let same : set_response db (pos 0) none 0 ≡ db' = cc in
      (inl (sym (ap (λ d. d.response_size) same)), sym (ap (λ d. d.current_requester_task_id) same))
]

-- What a served request leaves: the answer is there, and the requester is the one of the request.
served-HasAnswer :
    (db db' : Database) (msg : RequestMsg)
    → IsTable db
    → IsFit msg
    → handle_request db msg ≡ done db'
    → HasAnswer db' × (db'.current_requester_task_id ≡ msg.sender_task_id)
unfolding handle_request serve select insert set_response select_found
served-HasAnswer db db' msg t (inl (q, h)) e =
    let id = take 8 msg.payload.items in
    let found = find (take db.student_count db.students) id 0 in
    let run : handle_request db msg ≡ done (select_found (requested db msg) found) =
      rw (q, copy_out_owned 8 msg.payload h) in
    let same : select_found (requested db msg) found ≡ db' = cc in
    rw⁻¹ same (
      select_found-HasAnswer (requested db msg) id found (requested-IsTable db msg t) refl,
      select_found_requester (requested db msg) found,
    )
served-HasAnswer db db' msg t (inr (inl (q, h))) e =
    let run : handle_request db msg ≡ insert_info (requested db msg) (take 48 msg.payload.items) =
      rw (q, copy_out_owned 48 msg.payload h) in
    insert_info-HasAnswer (requested db msg) db' (take 48 msg.payload.items) (sym run ∙ e)
served-HasAnswer db db' msg t (inr (inr q)) e =
    let run : handle_request db msg ≡ done (set_response (requested db msg) (pos 1) none 0) =
      rw q in
    let same : set_response (requested db msg) (pos 1) none 0 ≡ db' = cc in
    rw⁻¹ same (inl refl, refl)

-- Select, insert and ping requests with their data are answered: on every well-formed table the
-- request succeeds, and a response to its sender can be built that is ready to be sent.
pub handle_request-HasAnswer :
    (db : Database) (msg : RequestMsg)
    → IsTable db
    → IsFit msg
    → (db' : Database) × (handle_request db msg ≡ done db')
      × IsTable db'
      × HasAnswer db'
      × (db'.current_requester_task_id ≡ msg.sender_task_id)
handle_request-HasAnswer db msg t f =
    let (db', e, t') = handle_request-IsTable db msg t f in
    let (a, r) = served-HasAnswer db db' msg t f e in (db', e, t', a, r)
