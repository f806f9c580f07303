-- ===== src/Tasks/DatabaseTask.antt =====
-- TaskSystem/src/Tasks/DatabaseTask/DatabaseTask.c: a table of students, and the response to each
-- request. A slot of the table is the 48 bytes of its struct StudentInfo: the id in the bytes 0 to 7,
-- the name in 8 to 37, the gpa in 40 to 43; the others are padding.
pub mod Slots
pub mod Requests
pub mod Answers
pub mod Loop
use francois_gingras_master.Common.{
  equal_bytes, strncpy, ℕ, zero, suc, ◌+◌, Bool, true, false, ◌&&◌, Option, none, some, ℤ, pos,
  List, [], ◌∷◌, ◌++◌, replicate, length, take, drop, set, get_elem?, Outcome, done, fault,
  or_fault, ◌>>=◌, leb, ltb, ◌==◌, ◌==ℤ◌, if◌then◌else◌,
}
use francois_gingras_master.Messages.Header.{Array, read_array}
use francois_gingras_master.Messages.RequestMsg.{RequestMsg}
use francois_gingras_master.Messages.ResponseMsg.{ResponseMsg}
use francois_gingras_master.Messages.ResponseMsg

-- sizeof(struct SelectInfo), sizeof(struct StudentInfo), MAX_STUDENT
abbrev pub sizeof_select : ℕ
sizeof_select = 8

abbrev pub sizeof_student : ℕ
sizeof_student = 48

abbrev pub max_student : ℕ
max_student = 1000

-- `response_data` is a pointer to a slot of the table, or NULL.
pub record Database : Type 0 where
  pub current_requester_task_id : ℤ
  pub response_code : ℤ
  pub response_data : Option ℕ
  pub response_size : ℕ
  pub student_count : ℕ
  pub students : List (List ℕ)

-- DatabaseTask_create: what `malloc` leaves in the table and in the id of the requester stays.
unfoldable pub create : ℤ → List (List ℕ) → Database
create requester memory = record {
  current_requester_task_id = requester;
  response_code = pos 0;
  response_data = none;
  response_size = 0;
  student_count = 0;
  students = memory;
}

unfoldable pub set_response : Database → ℤ → Option ℕ → ℕ → Database
set_response db code at size = record db {
  response_code = code;
  response_data = at;
  response_size = size;
}

-- `memcpy(&dst, requestMsg->getData(requestMsg), n)` into an object of `dst_size` bytes. The message
-- is a clone, so its data are in a block of their own.
unfoldable pub copy_out : ℕ → ℕ → Array ℕ → Outcome (List ℕ)
copy_out dst_size n bytes = if leb n dst_size then read_array 0 bytes n else fault

-- The loop over the students: the first whose id has these bytes.
unfoldable pub find : List (List ℕ) → List ℕ → ℕ → Option ℕ
find [] id i = none
find (slot ∷ slots) id i =
    let rest = find slots id (i + 1) in if equal_bytes (take 8 slot) id then some i else rest

-- The slot after its three fields were set; the padding stays.
unfoldable pub write_student : List ℕ → List ℕ → List ℕ → List ℕ → List ℕ
write_student slot id name gpa =
    id ++ (strncpy 30 name ++ (take 2 (drop 38 slot) ++ (gpa ++ drop 44 slot)))

select_found : Database → Option ℕ → Database
select_found db none = set_response db (pos 0) none 0
select_found db (some i) = set_response db (pos 1) (some i) sizeof_student

unfoldable pub select : Database → Array ℕ → Outcome Database
unfolding select_found set_response
select db bytes = do
  id ← copy_out sizeof_select sizeof_select bytes
  done (select_found db (find (take db.student_count db.students) id 0))

store_student : Database → List ℕ → List ℕ → Database
store_student db info slot =
    let written =
      write_student slot (take 8 info) (take 30 (drop 8 info)) (take 4 (drop 40 info)) in
    record db {
      students = set db.students db.student_count written;
      student_count = db.student_count + 1;
    }

-- The new student at the end of the table, if there is a place.
insert_info : Database → List ℕ → Outcome Database
unfolding set_response store_student
insert_info db info =
    if ltb db.student_count max_student
    then (or_fault (get_elem? db.students db.student_count) >>= λ slot.
        done (set_response (store_student db info slot) (pos 1) none 0))
    else done (set_response db (pos 0) none 0)

unfoldable pub insert : Database → Array ℕ → Outcome Database
unfolding insert_info
insert db bytes = do info ← copy_out sizeof_student sizeof_student bytes; insert_info db info

delete_found : Database → Option ℕ → Outcome Database
delete_found db none = done (set_response db (pos 0) none 0)
delete_found db (some i) = do
  slot ← or_fault (get_elem? db.students i)
  let cleared = write_student slot (replicate 8 255) [] (replicate 4 0)
  done (set_response (record db { students = set db.students i cleared }) (pos 1) none 0)

-- The copy takes the size of a StudentInfo, and its target is a SelectInfo.
unfoldable pub delete : Database → Array ℕ → Outcome Database
unfolding delete_found
delete db bytes = do
  id ← copy_out sizeof_select sizeof_student bytes
  delete_found db (find (take db.student_count db.students) (take 8 id) 0)

-- The switch over the request type; another type leaves the last response in place.
unfoldable pub serve : Database → ℤ → Array ℕ → Outcome Database
serve db request_type bytes =
    if request_type ==ℤ pos 0
    then select db bytes
    else if request_type ==ℤ pos 1
    then insert db bytes
    else if request_type ==ℤ pos 2
    then delete db bytes
    else if request_type ==ℤ pos 3
    then done (set_response db (pos 1) none 0)
    else done db

unfoldable pub handle_request : Database → RequestMsg → Outcome Database
unfolding serve
handle_request db msg =
    serve (record db { current_requester_task_id = msg.sender_task_id }) msg.request_type
      msg.payload

-- The bytes behind `response_data`.
response_bytes : Database → Option ℕ → Outcome (List ℕ)
response_bytes db none = fault
response_bytes db (some i) = or_fault (get_elem? db.students i)

-- The response that `start` builds and the task that it sends it to.
unfoldable pub respond : Database → Outcome (ResponseMsg × ℤ)
unfolding response_bytes
respond db =
    let res = record (ResponseMsg.create (pos 1)) { code = db.response_code } in
    if ltb 0 db.response_size
    then (do
      bytes ← response_bytes db db.response_data
      filled ← ResponseMsg.set_data res bytes db.response_size
      done (filled, db.current_requester_task_id))
    else done (res, db.current_requester_task_id)
