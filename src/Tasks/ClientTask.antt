-- ===== src/Tasks/ClientTask.antt =====
-- TaskSystem/src/Tasks/ClientTask/ClientTask.c: the requests that a client sends to the database.
pub mod Loop
use francois_gingras_master.Common.{
  length-take, ℕ, zero, suc, ◌+◌, ◌%◌, ◌/◌, ◌≤◌, ◌≡◌, refl, ap, ◌⊎◌, inl, inr, true, ℤ, pos, List,
  [], ◌∷◌, length, take, Outcome, done, fault, exits, leb, ◌==◌, if◌then◌else◌, arith, word,
}
use francois_gingras_master.Messages.Header.{Place}
use francois_gingras_master.Messages.RequestMsg.{RequestMsg}
use francois_gingras_master.Messages.RequestMsg
use francois_gingras_master.Messages.Message.{request}
use francois_gingras_master.Messages.Message.Law.{IsReady}
use francois_gingras_master.Tasks.DatabaseTask.{Database, write_student, handle_request}
use francois_gingras_master.Tasks.DatabaseTask.Requests.{IsFit, handle_request-delete_fault}
use francois_gingras_master.Tasks.DatabaseTask.Loop.{taken}
use francois_gingras_master.Tasks.DatabaseTask.Slots.{length-write_student}

-- The bytes of a `long`, the lowest first.
unfoldable pub le_bytes : ℕ → ℕ → List ℕ
le_bytes zero x = []
le_bytes (suc n) x = (x % 256) ∷ le_bytes n (x / 256)

-- "Francois Gingras", and the float 4.3
abbrev student_name : List ℕ
student_name =
    70 ∷ 114 ∷ 97 ∷ 110 ∷ 99 ∷ 111 ∷ 105 ∷ 115 ∷ 32 ∷ 71 ∷ 105 ∷ 110 ∷ 103 ∷ 114 ∷ 97 ∷ 115 ∷ []

abbrev student_gpa : List ℕ
student_gpa = 154 ∷ 153 ∷ 137 ∷ 64 ∷ []

-- The request number i of a type. `memory` is what the struct on the stack holds before.
unfoldable pub build_request : ℕ → ℕ → ℕ → List ℕ → Outcome RequestMsg
build_request task_id req_type i memory =
    let req = record (RequestMsg.create (pos 0)) { sender_task_id = pos task_id } in
    if req_type == 1
    then RequestMsg.set_data (record req { request_type = pos 0 }) (le_bytes 8 i) 8
    else (if req_type == 2
        then RequestMsg.set_data (record req { request_type = pos 1 })
            (write_student memory (le_bytes 8 i) student_name student_gpa) 48
        else (if req_type == 3
            then RequestMsg.set_data (record req { request_type = pos 2 }) (le_bytes 8 i) 8
            else (if req_type == 4 then done (record req { request_type = pos 3 }) else exits)))

-- A request with n bytes of data.
abbrev with_data : ℕ → ℤ → ℕ → List ℕ → RequestMsg
with_data task_id request_type n bytes = record {
  header = record { tag = pos 0; tid = 8; msg_size = (88 + n) % word; methods = true };
  sender_task_id = pos task_id;
  request_type = request_type;
  data_size = n;
  payload = record { place = Place.owned; items = take n bytes };
}

length-le_bytes : (n x : ℕ) → length (le_bytes n x) ≡ n
unfolding le_bytes
length-le_bytes zero x = refl
length-le_bytes (suc n) x = ap suc (length-le_bytes n (x / 256))

filled :
    (this : RequestMsg) (bytes : List ℕ) (n : ℕ)
    → length bytes ≡ n
    → RequestMsg.set_data this bytes n
      ≡ done (record this {
        header = record (this.header) { msg_size = (this.msg_size + n) % word };
        data_size = n;
        payload = record { place = Place.owned; items = take n bytes };
      })
unfolding RequestMsg.set_data
filled this bytes n e = let fits : leb n (length bytes) ≡ true = ground (arith, e) in rw fits

-- The select, insert and ping requests of a client are ready to be sent, name the client as their
-- sender, take at most 136 bytes, and have the data that the database reads, as built and as it
-- gets them.
pub build_request-IsFit :
    (task_id req_type i : ℕ) (memory : List ℕ)
    → length memory ≡ 48
    → (req_type ≡ 1) ⊎ ((req_type ≡ 2) ⊎ (req_type ≡ 4))
    → (m : RequestMsg) × (build_request task_id req_type i memory ≡ done m)
      × IsReady (request m)
      × IsFit m
      × (m.tag ≡ pos 0)
      × (m.sender_task_id ≡ pos task_id)
      × (m.msg_size ≤ 136)
      × IsFit (taken m)
unfolding build_request RequestMsg.create
build_request-IsFit task_id req_type i memory h (inl e) =
    let size = length-le_bytes 8 i in
    let kept = length-take 8 (le_bytes 8 i) (omega (arith, size)) in
    (
      with_data task_id (pos 0) 8 (le_bytes 8 i),
      rw e (filled _ (le_bytes 8 i) 8 size),
      record {
        sound = record { classed = refl; sized = omega arith };
        bound = refl;
        small = omega arith;
        owns = omega (arith, kept);
      },
      inl (refl, omega (arith, kept)),
      refl,
      refl,
      omega arith,
      inl (refl, omega (arith, length-take 8 (take 8 (le_bytes 8 i)) (omega (arith, kept)))),
    )
build_request-IsFit task_id req_type i memory h (inr (inl e)) =
    let info = write_student memory (le_bytes 8 i) student_name student_gpa in
    let size =
      length-write_student memory (le_bytes 8 i) student_name student_gpa h (length-le_bytes 8 i)
        refl in
    let kept = length-take 48 info (omega (arith, size)) in
    (
      with_data task_id (pos 1) 48 info,
      rw e (filled _ info 48 size),
      record {
        sound = record { classed = refl; sized = omega arith };
        bound = refl;
        small = omega arith;
        owns = omega (arith, kept);
      },
      inr (inl (refl, omega (arith, kept))),
      refl,
      refl,
      omega arith,
      inr (inl (refl, omega (arith, length-take 48 (take 48 info) (omega (arith, kept))))),
    )
build_request-IsFit task_id req_type i memory h (inr (inr e)) = (
  record (RequestMsg.create (pos 0)) { sender_task_id = pos task_id; request_type = pos 3 },
  rw e,
  record {
    sound = record { classed = refl; sized = omega arith };
    bound = refl;
    small = omega arith;
    owns = refl;
  },
  inr (inr refl),
  refl,
  refl,
  omega arith,
  inr (inr refl),
)

-- The database cannot serve a delete request of a client: it is undefined behaviour on every table.
pub build_request-delete_fault :
    (db : Database) (task_id i : ℕ) (memory : List ℕ)
    → (m : RequestMsg) × (build_request task_id 3 i memory ≡ done m) × (handle_request db m ≡ fault)
unfolding build_request RequestMsg.create
build_request-delete_fault db task_id i memory = (
  with_data task_id (pos 2) 8 (le_bytes 8 i),
  filled _ (le_bytes 8 i) 8 (length-le_bytes 8 i),
  handle_request-delete_fault db (with_data task_id (pos 2) 8 (le_bytes 8 i)) refl,
)
