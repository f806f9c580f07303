-- ===== src/Tasks/ClientTask/Loop.antt =====
-- ClientTask.c: the sending of a request in the loop of `start`, `receive`, and the whole exchange
-- with the database.
use francois_gingras_master.Common.{
  ℕ, ◌≤◌, ◌≡◌, refl, sym, true, ◌≢◌, ◌⊎◌, inl, inr, ℤ, pos, List, [], ◌∷◌, length, Outcome, done,
  ◌>>=◌, ◌==ℤ◌, if◌then◌else◌, arith,
}
use francois_gingras_master.Queue.{Queue}
use francois_gingras_master.Queue.Enqueue.{has_room}
use francois_gingras_master.Messages.RequestMsg.{RequestMsg}
use francois_gingras_master.Messages.ResponseMsg.{ResponseMsg}
use francois_gingras_master.Messages.Message.{Message, request, response}
use francois_gingras_master.System.{Shared, Process, with_segment, send}
use francois_gingras_master.System.Delivery.{
  Carries, IsMapped, send-Carries, segments-with_segment, segments-with_segment_self,
}
use francois_gingras_master.Tasks.Dispatch.{
  task_index, Reaction, handles, leaves, drops, served, receive_by, receive_by-Reacts,
}
use francois_gingras_master.Tasks.DatabaseTask.{Database, handle_request, respond}
use francois_gingras_master.Tasks.DatabaseTask.Requests.{IsTable}
use francois_gingras_master.Tasks.DatabaseTask.Loop.{taken, serve_round, serve_round-answers}
use francois_gingras_master.Tasks.ClientTask.{build_request, build_request-IsFit}

-- The client keeps no state but its id.
pub record Client : Type 0 where
  pub task_id : ℕ

-- `handle_ResponseMsg` without VERBOSE: the message is not read.
response_handler : Client → Message → Outcome Client
response_handler this msg = done this

unfoldable pub reaction : ℤ → Reaction Client
unfolding response_handler
reaction tag =
    if tag ==ℤ pos 0 then leaves else if tag ==ℤ pos 1 then handles response_handler else drops

-- Up to `message_wait`: build the request number i and send it. `database_id` is the id that
-- `repository_get_id` gave.
unfoldable pub ask : Client → ℕ → ℕ → List ℕ → ℤ → Shared → Process → ℕ → Outcome (Shared × Process)
ask this req_type i memory database_id s p at = do
  req ← build_request this.task_id req_type i memory
  target ← task_index database_id
  (flag, msg, s', p') ← send s p at (request req) target
  done (s', p')

ask-Carries :
    (this : Client) (req_type i : ℕ) (memory : List ℕ) (m : RequestMsg) (s : Shared) (p : Process)
    (at base t : ℕ)
    → length memory ≡ 48
    → (req_type ≡ 1) ⊎ ((req_type ≡ 2) ⊎ (req_type ≡ 4))
    → build_request this.task_id req_type i memory ≡ done m
    → IsMapped p t base
    → Carries (s.segments t) []
    → ((n : ℕ) → n ≤ 136 → has_room (s.segments t) n ≡ true)
    → (q : Queue Message) × (ask this req_type i memory (pos t) s p at
        ≡ done (with_segment s t q, p))
      × Carries q (request m ∷ [])
unfolding ask
ask-Carries this req_type i memory m s p at base t long type built mapped k room =
    let (m', built', ready, _, _, _, size, _) =
      build_request-IsFit this.task_id req_type i memory long type in
    let same : m' ≡ m = cc in
    elim (send-Carries s p at base (request m') t [] mapped k ready) [
      | inl (_, q, sent, k') ↦ (q, rw (built', sent), rw⁻¹ same k')
      | inr (full, _) ↦ let fits = room m'.msg_size size in absurd (cc)
    ]

-- A client sends a select, insert or ping request to the database, another task, the database
-- serves one round, and the client receives. If the table is well-formed and both tasks have
-- mapped both queues, which are empty and have room, then every call succeeds: the database
-- handles what the client has built, the response to it is what the client then takes, no
-- message is left, and the table is well-formed again.
pub exchange :
    (this : Client) (req_type i : ℕ) (memory : List ℕ) (db : Database) (s : Shared)
    (client server : Process) (at own_at at' own_at' base base' base'' base''' t : ℕ)
    → length memory ≡ 48
    → (req_type ≡ 1) ⊎ ((req_type ≡ 2) ⊎ (req_type ≡ 4))
    → IsTable db
    → t ≢ this.task_id
    → IsMapped client t base
    → IsMapped client this.task_id base'
    → IsMapped server t base''
    → IsMapped server this.task_id base'''
    → Carries (s.segments t) []
    → Carries (s.segments this.task_id) []
    → ((n : ℕ) → n ≤ 136 → has_room (s.segments t) n ≡ true)
    → ((n : ℕ) → n ≤ 136 → has_room (s.segments this.task_id) n ≡ true)
    → (m : RequestMsg) × (db' : Database) × (res : ResponseMsg) × (s1 : Shared) × (s2 : Shared)
      × (s3 : Shared) × (build_request this.task_id req_type i memory ≡ done m)
      × (ask this req_type i memory (pos t) s client at ≡ done (s1, client))
      × (serve_round db s1 server own_at at' t ≡ done (served db' s2 server))
      × (handle_request db (taken m) ≡ done db')
      × IsTable db'
      × (respond db' ≡ done (res, pos this.task_id))
      × Carries (s2.segments this.task_id) (response res ∷ [])
      × (receive_by reaction this s2 client own_at' this.task_id ≡ done (served this s3 client))
      × Carries (s3.segments t) []
      × Carries (s3.segments this.task_id) []
unfolding reaction response_handler
exchange this req_type i memory db s client server at own_at at' own_at' base base' base'' base''' t
      long type table other mapped mapped' mapped'' mapped''' k k' room room' =
    let (m, built, _, _, tagged, sender, _, fit) =
      build_request-IsFit this.task_id req_type i memory long type in
    let (q, asked, k1) =
      ask-Carries this req_type i memory m s client at base t long type built mapped k room in
    let sent = with_segment s t q in
    let own = segments-with_segment s t this.task_id q other in
    let (db', res, q1, q2, handled, table', answered, labelled, round, n1, n2) =
      serve_round-answers db sent server own_at at' base'' base''' t this.task_id m [] [] table
        mapped'' mapped''' other (rw (segments-with_segment_self s t q) k1) (rw own k')
        (rw own (room' 80 (omega arith))) (rw own (room' 128 (omega arith))) tagged fit sender in
    let served_to = with_segment (with_segment sent t q1) this.task_id q2 in
    let arrived = segments-with_segment_self (with_segment sent t q1) this.task_id q2 in
    let handling : reaction res.tag ≡ handles response_handler = rw labelled refl in
    let (q3, received, n3) = rw handling at (
      receive_by-Reacts reaction this served_to client own_at' base' this.task_id (response res) []
        mapped' (rw arrived n2) (rw labelled refl)) in
    (
      m,
      db',
      res,
      sent,
      served_to,
      with_segment served_to this.task_id q3,
      built,
      asked,
      round,
      handled,
      table',
      answered,
      rw arrived n2,
      received,
      rw
          (
            segments-with_segment served_to this.task_id t q3 (λ e. other (sym e)),
            segments-with_segment (with_segment sent t q1) this.task_id t q2 (λ e. other (sym e)),
            segments-with_segment_self sent t q1,
          )
          n1,
      rw (segments-with_segment_self served_to this.task_id q3) n3,
    )
