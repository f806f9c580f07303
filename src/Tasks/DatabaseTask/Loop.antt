-- ===== src/Tasks/DatabaseTask/Loop.antt =====
-- DatabaseTask.c: `receive` and the loop of `start`.
use francois_gingras_master.Common.{
  ◌∙◌, take, ℕ, zero, suc, ◌≡◌, refl, true, ◌≢◌, inl, inr, ℤ, pos, List, [], ◌∷◌, ◌++◌, Outcome,
  done, fault, ◌>>=◌, ◌==ℤ◌, if◌then◌else◌,
}
use francois_gingras_master.Queue.{Queue}
use francois_gingras_master.Queue.Enqueue.{has_room}
use francois_gingras_master.Messages.Header.{Place}
use francois_gingras_master.Messages.RequestMsg.{RequestMsg}
use francois_gingras_master.Messages.ResponseMsg.{ResponseMsg}
use francois_gingras_master.Messages.Message.{Message, request, response}
use francois_gingras_master.System.{Shared, Process, with_segment, send}
use francois_gingras_master.System.Delivery.{Carries, IsMapped, send-Carries, segments-with_segment}
use francois_gingras_master.Tasks.Dispatch.{
  task_index, Reaction, handles, leaves, drops, Received, waits, served, receive_by,
  receive_by-Reacts,
}
use francois_gingras_master.Tasks.DatabaseTask.{Database, handle_request, respond}
use francois_gingras_master.Tasks.DatabaseTask.Requests.{IsTable, IsFit}
use francois_gingras_master.Tasks.DatabaseTask.Answers.{
  HasAnswer, respond-IsReady, handle_request-HasAnswer,
}

-- The cast to a RequestMsg and the handler. An object of another class is a fault.
unfoldable pub request_handler : Database → Message → Outcome Database
request_handler db (request m) = handle_request db m
request_handler db _ = fault

unfoldable pub reaction : ℤ → Reaction Database
reaction tag =
    if tag ==ℤ pos 0 then handles request_handler else if tag ==ℤ pos 1 then leaves else drops

unfoldable pub answer_requester : Database → Shared → Process → ℕ → Outcome (Shared × Process)
answer_requester db s p at = do
  (res, requester) ← respond db
  target ← task_index requester
  (flag, msg, s', p') ← send s p at (response res) target
  done (s', p')

-- One round of the loop of `start`: receive, then send the response to whoever asked last. The flag
-- that `send` returns is not looked at. `own_at` and `at` are what `mmap` gives.
unfoldable pub serve_round : Database → Shared → Process → ℕ → ℕ → ℕ → Outcome (Received Database)
serve_round db s p own_at at t = receive_by reaction db s p own_at t >>= λ r. elim r [
  | waits p' ↦ done (waits p')
  | served db' s' p' ↦ (do (s'', p'') ← answer_requester db' s' p' at; done (served db' s'' p''))
]

-- `max_request` rounds, up to the first that waits.
unfoldable pub serve_rounds :
    ℕ → Database → Shared → Process → ℕ → ℕ → ℕ → Outcome (Received Database)
serve_rounds zero db s p own_at at t = done (served db s p)
serve_rounds (suc n) db s p own_at at t = serve_round db s p own_at at t >>= λ r. elim r [
  | waits p' ↦ done (waits p')
  | served db' s' p' ↦ serve_rounds n db' s' p' own_at at t
]

-- What the handler gets of a request.
abbrev pub taken : RequestMsg → RequestMsg
taken m = record m {
  payload = record { place = Place.owned; items = take m.data_size m.payload.items };
}

answer_requester-Carries :
    (db : Database) (s : Shared) (p : Process) (at base c : ℕ) (ks : List Message)
    → IsTable db
    → HasAnswer db
    → db.current_requester_task_id ≡ pos c
    → IsMapped p c base
    → Carries (s.segments c) ks
    → has_room (s.segments c) 80 ≡ true
    → has_room (s.segments c) 128 ≡ true
    → (res : ResponseMsg) × (q : Queue Message) × (respond db ≡ done (res, pos c))
      × (res.tag ≡ pos 1)
      × (answer_requester db s p at ≡ done (with_segment s c q, p))
      × Carries q (ks ++ (response res ∷ []))
unfolding answer_requester
answer_requester-Carries db s p at base c ks t a asked mapped k small large =
    let (res, e, _, tagged, size, ready) = respond-IsReady db t a in
    let room : has_room (s.segments c) res.msg_size ≡ true = elim size [
      | inl n ↦ rw n small
      | inr n ↦ rw n large
    ] in
    elim (send-Carries s p at base (response res) c ks mapped k ready) [
      | inl (_, q, sent, k') ↦ (res, q, e ∙ rw asked refl, tagged, rw (e, asked, sent), k')
      | inr (full, _) ↦ absurd (cc)
    ]

-- A round with a request on its way serves it: if the request's copy has the data that it needs and
-- its sender's queue is mapped and has room for a response, then the table stays well-formed, the
-- request is taken from the database's queue, and the response to it is the last message on its
-- way to the sender.
pub serve_round-answers :
    (db : Database) (s : Shared) (p : Process) (own_at at base base' t c : ℕ) (m : RequestMsg)
    (ns ks : List Message)
    → IsTable db
    → IsMapped p t base
    → IsMapped p c base'
    → t ≢ c
    → Carries (s.segments t) (request m ∷ ns)
    → Carries (s.segments c) ks
    → has_room (s.segments c) 80 ≡ true
    → has_room (s.segments c) 128 ≡ true
    → m.tag ≡ pos 0
    → IsFit (taken m)
    → m.sender_task_id ≡ pos c
    → (db' : Database) × (res : ResponseMsg) × (q : Queue Message) × (q' : Queue Message)
      × (handle_request db (taken m) ≡ done db')
      × IsTable db'
      × (respond db' ≡ done (res, pos c))
      × (res.tag ≡ pos 1)
      × (serve_round db s p own_at at t
          ≡ done (served db' (with_segment (with_segment s t q) c q') p))
      × Carries q ns
      × Carries q' (ks ++ (response res ∷ []))
unfolding serve_round reaction request_handler
serve_round-answers db s p own_at at base base' t c m ns ks table mapped mapped' other n k small
      large tagged fit sender =
    let (db', e, table', a, asked) = handle_request-HasAnswer db (taken m) table fit in
    let handling : reaction m.tag ≡ handles request_handler = rw tagged refl in
    let (q, received, n') =
      rw handling at (
        receive_by-Reacts reaction db s p own_at base t (request m) ns mapped n (rw tagged refl)) in
    let same = segments-with_segment s t c q other in
    let (res, q', answered, labelled, sent, k') =
      answer_requester-Carries db' (with_segment s t q) p at base' c ks table' a (asked ∙ sender)
        mapped' (rw same k) (rw same small) (rw same large) in
    (db', res, q, q', e, table', answered, labelled, rw (received, e, sent), n', k')
