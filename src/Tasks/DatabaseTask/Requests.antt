-- ===== src/Tasks/DatabaseTask/Requests.antt =====
-- What each request does to the table, and what the response holds.
use francois_gingras_master.Common.{get_elem?-set_self, strncpy}
use francois_gingras_master.Common.{
  length-take, length-drop, ℕ, suc, ◌+◌, ◌≤◌, ◌<◌, ◌≡◌, refl, ap, ◌∙◌, ◌⊎◌, inl, inr, true,
  Bool-cases, Option, none, some, pos, List, length, length-set, take, drop, get_elem?,
  get_elem?-some, get_elem?-set_ne, ◌≢◌, done, fault, leb, ltb, arith,
}
use francois_gingras_master.Messages.Header.{Array, Place, IsOwned, read_array_owned}
use francois_gingras_master.Messages.RequestMsg.{RequestMsg}
use francois_gingras_master.Messages.ResponseMsg.{ResponseMsg}
use francois_gingras_master.Messages.ResponseMsg
use francois_gingras_master.Tasks.DatabaseTask.{
  Database, max_student, sizeof_student, set_response, copy_out, find, write_student, select_found,
  select, store_student, insert_info, insert, delete, serve, handle_request,
}
use francois_gingras_master.Tasks.DatabaseTask.Slots.{
  length-write_student, set-sized, write_student-fields, write_student-id, find-set,
}

-- The table has all its slots, and the students are in the first ones.
pub record IsTable (db : Database) : Type 0 where
  pub slots : length db.students ≡ max_student
  pub count : db.student_count ≤ max_student
  pub sized :
      (i : ℕ) (slot : List ℕ) → get_elem? db.students i ≡ some slot → length slot ≡ sizeof_student

-- Every delete request is undefined behaviour, whatever its data: the copy is larger than its target.
pub handle_request-delete_fault :
    (db : Database) (msg : RequestMsg) → msg.request_type ≡ pos 2 → handle_request db msg ≡ fault
unfolding handle_request serve delete copy_out
handle_request-delete_fault db msg e = rw e

-- The data that the request needs.
abbrev pub IsFit : RequestMsg → Type 0
IsFit msg =
    ((msg.request_type ≡ pos 0) × IsOwned msg.payload 8)
    ⊎ (((msg.request_type ≡ pos 1) × IsOwned msg.payload 48) ⊎ (msg.request_type ≡ pos 3))

pub copy_out_owned :
    (n : ℕ) (bytes : Array ℕ) → IsOwned bytes n → copy_out n n bytes ≡ done (take n bytes.items)
unfolding copy_out
copy_out_owned n bytes h =
    let fits : leb n n ≡ true = ground arith in rw fits (read_array_owned 0 bytes n h)

select_found-IsTable :
    (db : Database) (found : Option ℕ) → IsTable db → IsTable (select_found db found)
unfolding set_response select_found
select_found-IsTable db none t = record { slots = t.slots; count = t.count; sized = t.sized }
select_found-IsTable db (some i) t = record { slots = t.slots; count = t.count; sized = t.sized }

insert_info-IsTable :
    (db : Database) (info : List ℕ)
    → length info ≡ 48
    → IsTable db
    → (db' : Database) × (insert_info db info ≡ done db') × IsTable db'
unfolding set_response insert_info store_student
insert_info-IsTable db info h t = elim (Bool-cases (ltb db.student_count max_student)) [
  | inl room ↦
      let below : db.student_count < max_student = ground arith in
      let (slot, e) = get_elem?-some db.students db.student_count (omega (arith, t.slots)) in
      let written =
        write_student slot (take 8 info) (take 30 (drop 8 info)) (take 4 (drop 40 info)) in
      let size =
        length-write_student slot (take 8 info) (take 30 (drop 8 info)) (take 4 (drop 40 info))
          (t.sized db.student_count slot e) (length-take 8 info (omega arith))
          (length-take 4 (drop 40 info) (omega (arith, length-drop 40 info))) in
      (
        set_response (store_student db info slot) (pos 1) none 0,
        rw (room, e),
        record {
          slots = length-set db.students db.student_count written ∙ t.slots;
          count = omega arith;
          sized = set-sized db.students db.student_count written size t.sized;
        },
      )
  | inr full ↦ (
    set_response db (pos 0) none 0,
    rw full,
    record { slots = t.slots; count = t.count; sized = t.sized },
  )
]

owned_at :
    (p : Place) (l : List ℕ) (n : ℕ)
    → IsOwned (record { place = p; items = l }) (suc n)
    → suc n ≤ length l
owned_at Place.null l n h = absurd (omega arith)
owned_at Place.owned l n h = h
owned_at (Place.inline at) l n h = elim h [ ]

owned_long : (bytes : Array ℕ) (n : ℕ) → IsOwned bytes (suc n) → suc n ≤ length bytes.items
owned_long bytes n h = owned_at bytes.place bytes.items n h

-- The table while a request is served.
abbrev pub requested : Database → RequestMsg → Database
requested db msg = record db { current_requester_task_id = msg.sender_task_id }

pub requested-IsTable : (db : Database) (msg : RequestMsg) → IsTable db → IsTable (requested db msg)
requested-IsTable db msg t = record { slots = t.slots; count = t.count; sized = t.sized }

-- Select, insert and ping requests with their data succeed on every table and keep it well-formed.
pub handle_request-IsTable :
    (db : Database) (msg : RequestMsg)
    → IsTable db
    → IsFit msg
    → (db' : Database) × (handle_request db msg ≡ done db') × IsTable db'
unfolding handle_request serve select insert set_response
handle_request-IsTable db msg t (inl (e, h)) =
    let found = find (take db.student_count db.students) (take 8 msg.payload.items) 0 in
    (
      select_found (requested db msg) found,
      rw (e, copy_out_owned 8 msg.payload h),
      select_found-IsTable (requested db msg) found (requested-IsTable db msg t),
    )
handle_request-IsTable db msg t (inr (inl (e, h))) =
    let info = take 48 msg.payload.items in
    let (db', e', t') =
      insert_info-IsTable (requested db msg) info
        (length-take 48 msg.payload.items (owned_long msg.payload 47 h))
        (requested-IsTable db msg t) in
    (
      db',
      ap (λ r. serve (requested db msg) r msg.payload) e ∙ rw (copy_out_owned 48 msg.payload h, e'),
      t',
    )
handle_request-IsTable db msg t (inr (inr e)) = (
  set_response (requested db msg) (pos 1) none 0,
  rw e,
  record { slots = t.slots; count = t.count; sized = t.sized },
)

-- The response with the bytes of a slot.
abbrev pub answer : List ℕ → ResponseMsg
answer slot = record {
  header = record { tag = pos 1; tid = 9; msg_size = 128; methods = true };
  code = pos 1;
  data_size = 48;
  payload = record { place = Place.owned; items = take 48 slot };
}

-- An insert request into a table with a place, of an id that no student has, succeeds with code 1
-- and no data for the sender. The new student stands behind the others, with the id, the name up to
-- its end and the gpa of the request, and is found by the id; every other slot is as before.
pub handle_request-insert :
    (db : Database) (msg : RequestMsg)
    → IsTable db
    → msg.request_type ≡ pos 1
    → IsOwned msg.payload 48
    → db.student_count < max_student
    → find (take db.student_count db.students) (take 8 (take 48 msg.payload.items)) 0 ≡ none
    → (db' : Database) × (handle_request db msg ≡ done db')
      × (db'.response_code ≡ pos 1)
      × (db'.response_size ≡ 0)
      × (db'.current_requester_task_id ≡ msg.sender_task_id)
      × (db'.student_count ≡ db.student_count + 1)
      × ((new : List ℕ) × (get_elem? db'.students db.student_count ≡ some new)
          × (length new ≡ sizeof_student)
          × (take 8 new ≡ take 8 (take 48 msg.payload.items))
          × (take 30 (drop 8 new) ≡ strncpy 30 (take 30 (drop 8 (take 48 msg.payload.items))))
          × (take 4 (drop 40 new) ≡ take 4 (drop 40 (take 48 msg.payload.items))))
      × (find (take (suc db.student_count) db'.students) (take 8 (take 48 msg.payload.items)) 0
          ≡ some db.student_count)
      × ((j : ℕ) → db.student_count ≢ j → get_elem? db'.students j ≡ get_elem? db.students j)
unfolding handle_request serve insert insert_info set_response store_student
handle_request-insert db msg t e h room absent =
    let info = take 48 msg.payload.items in
    let whole = length-take 48 msg.payload.items (owned_long msg.payload 47 h) in
    let (slot, at) = get_elem?-some db.students db.student_count (omega (arith, t.slots)) in
    let free : ltb db.student_count max_student ≡ true = ground arith in
    let name = take 30 (drop 8 info) in
    let gpa = take 4 (drop 40 info) in
    let written = write_student slot (take 8 info) name gpa in
    let sized = t.sized db.student_count slot at in
    let id_size = length-take 8 info (omega arith) in
    let gpa_size = length-take 4 (drop 40 info) (omega (arith, length-drop 40 info)) in
    let fields = write_student-fields slot (take 8 info) name gpa sized id_size gpa_size in
    let named = write_student-id slot (take 8 info) name gpa (length-take 8 info (omega arith)) in
    (
      set_response (store_student (requested db msg) info slot) (pos 1) none 0,
      ap (λ r. serve (requested db msg) r msg.payload) e
          ∙ rw (copy_out_owned 48 msg.payload h, free, at),
      refl,
      refl,
      refl,
      refl,
      (
        written,
        get_elem?-set_self db.students db.student_count written (omega (arith, t.slots)),
        length-write_student slot (take 8 info) name gpa sized id_size gpa_size,
        fields.0,
        fields.1,
        fields.2,
      ),
      find-set db.students db.student_count 0 written (take 8 info) (omega (arith, t.slots)) absent
            named
          ∙ ap some (omega arith),
      λ j other. get_elem?-set_ne db.students written other,
    )
