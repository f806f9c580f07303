-- ===== src/Tests/Database.antt =====
-- The theorems on the database.
use francois_gingras_master.Common.{drop, strncpy}
use francois_gingras_master.Common.{
  ℕ, zero, suc, ◌≤◌, ◌≡◌, refl, inl, inr, true, pos, none, some, List, [], ◌∷◌, take, replicate,
  length, length-replicate, get_elem?, ◌≢◌, done, fault, arith,
}
use francois_gingras_master.Messages.Header.{Place}
use francois_gingras_master.Messages.RequestMsg.{RequestMsg}
use francois_gingras_master.Messages.ResponseMsg.{ResponseMsg}
use francois_gingras_master.Tasks.DatabaseTask.{Database, find, handle_request}
use francois_gingras_master.Messages.Message.{request}
use francois_gingras_master.Messages.Message.Law.{IsReady}
use francois_gingras_master.Tasks.DatabaseTask.Loop.{taken}
use francois_gingras_master.Tasks.ClientTask.{
  build_request, build_request-IsFit, build_request-delete_fault,
}
use francois_gingras_master.Tasks.DatabaseTask.Requests.{IsFit, IsTable, handle_request-insert}

-- A table with one student, of the id 9.
abbrev pub student : List ℕ
student = 9 ∷ replicate 47 0

abbrev pub table : Database
table = record {
  current_requester_task_id = pos 0;
  response_code = pos 0;
  response_data = none;
  response_size = 0;
  student_count = 1;
  students = student ∷ replicate 999 (replicate 48 0);
}

blank_slots :
    (n i : ℕ) (slot : List ℕ)
    → get_elem? (replicate n (replicate 48 0)) i ≡ some slot
    → length slot ≡ 48
blank_slots zero i slot e = absurd (cc)
blank_slots (suc n) zero slot e =
    let same : replicate 48 0 ≡ slot = cc in rw⁻¹ same (length-replicate {A = ℕ} 48 0)
blank_slots (suc n) (suc i) slot e = blank_slots n i slot e

table_slots :
    (i : ℕ) (slot : List ℕ)
    → get_elem? (student ∷ replicate 999 (replicate 48 0)) i ≡ some slot
    → length slot ≡ 48
table_slots zero slot e = let same : student ≡ slot = cc in rw⁻¹ same refl
table_slots (suc i) slot e = blank_slots 999 i slot e

pub table-IsTable : IsTable table
table-IsTable = record { slots = refl; count = omega arith; sized = table_slots }

abbrev query : RequestMsg
query = record {
  header = record { tag = pos 0; tid = 8; msg_size = 96; methods = true };
  sender_task_id = pos 4;
  request_type = pos 0;
  data_size = 8;
  payload = record { place = Place.owned; items = 9 ∷ replicate 7 0 };
}

abbrev entry : RequestMsg
entry = record {
  header = record { tag = pos 0; tid = 8; msg_size = 136; methods = true };
  sender_task_id = pos 4;
  request_type = pos 1;
  data_size = 48;
  payload = record { place = Place.owned; items = 7 ∷ replicate 47 0 };
}

seven_absent : find (student ∷ []) (7 ∷ replicate 7 0) 0 ≡ none
unfolding find
seven_absent = refl

handle_request-insert_example :
    (db' : Database) × (handle_request table entry ≡ done db')
    × (db'.response_code ≡ pos 1)
    × (db'.response_size ≡ 0)
    × (db'.current_requester_task_id ≡ pos 4)
    × (db'.student_count ≡ 2)
    × ((new : List ℕ) × (get_elem? db'.students 1 ≡ some new)
        × (length new ≡ 48)
        × (take 8 new ≡ 7 ∷ replicate 7 0)
        × (take 30 (drop 8 new) ≡ strncpy 30 (replicate 30 0))
        × (take 4 (drop 40 new) ≡ replicate 4 0))
    × (find (take 2 db'.students) (7 ∷ replicate 7 0) 0 ≡ some 1)
    × ((j : ℕ) → 1 ≢ j → get_elem? db'.students j ≡ get_elem? table.students j)
handle_request-insert_example =
    handle_request-insert table entry table-IsTable refl (omega arith) (omega arith) seven_absent

build_request-IsFit_example :
    (m : RequestMsg) × (build_request 4 2 1 (replicate 48 0) ≡ done m)
    × IsReady (request m)
    × IsFit m
    × (m.tag ≡ pos 0)
    × (m.sender_task_id ≡ pos 4)
    × (m.msg_size ≤ 136)
    × IsFit (taken m)
build_request-IsFit_example =
    build_request-IsFit 4 2 1 (replicate 48 0) (length-replicate {A = ℕ} 48 0) (inr (inl refl))

build_request-delete_fault_example :
    (m : RequestMsg) × (build_request 4 3 1 (replicate 48 0) ≡ done m)
    × (handle_request table m ≡ fault)
build_request-delete_fault_example = build_request-delete_fault table 4 1 (replicate 48 0)
