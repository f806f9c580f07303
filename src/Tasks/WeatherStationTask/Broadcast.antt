-- ===== src/Tasks/WeatherStationTask/Broadcast.antt =====
-- Whom a broadcast reaches.
use francois_gingras_master.Common.{
  ℕ, suc, ◌+◌, ◌≤◌, ◌<◌, ◌≡◌, refl, ◌≢◌, true, Bool-cases, inl, inr, ℤ, pos, List, [], ◌∷◌, ◌++◌,
  replicate, append-nil, append_assoc, length, leb, done, ◌==◌, ==_self, if◌then◌else◌, arith,
}
use francois_gingras_master.Queue.{Queue}
use francois_gingras_master.Queue.Enqueue.{has_room}
use francois_gingras_master.Messages.Header.{Place}
use francois_gingras_master.Messages.IntArrayMsg.{IntArrayMsg}
use francois_gingras_master.Messages.IntArrayMsg
use francois_gingras_master.Messages.Message.{Message, int_array, header}
use francois_gingras_master.Messages.Message.Law.{IsReady, after}
use francois_gingras_master.System.{Shared, Process, with_segment}
use francois_gingras_master.System.Delivery.{Carries, IsMapped, send-Carries, segments-with_segment}
use francois_gingras_master.Tasks.WeatherStationTask.{
  WeatherStation, IsStation, subscribers, build_weather, first_subs, post_all, broadcast,
}

-- Every subscriber is a task whose queue the station has mapped.
abbrev pub AreMapped : Process → List ℤ → Type 0
AreMapped p [] = Unit {0}
AreMapped p (sub ∷ subs) =
    ((t : ℕ) × (base : ℕ) × (sub ≡ pos t) × IsMapped p t base) × AreMapped p subs

-- How often a task has subscribed.
abbrev pub times : List ℤ → ℕ → ℕ
times [] u = 0
times (pos t ∷ subs) u = (if t == u then 1 else 0) + times subs u
times (_ ∷ subs) u = times subs u

-- What a task gets: at most as many copies as it has subscriptions, at least one if it has any and
-- there was room.
pub record Gets (before after : Queue Message) (ns : List Message) (msg : Message) (n : ℕ)
    : Type 0 where
  pub copies : ℕ
  pub carried : Carries after (ns ++ replicate copies msg)
  pub most : copies ≤ n
  pub least : 0 < n → has_room before (header msg).msg_size ≡ true → 0 < copies

-- The count may grow if the room was missing or there is a copy already.
Gets-weaken :
    (before before' after' : Queue Message) (ns : List Message) (msg : Message) (n m : ℕ)
    → before' ≡ before
    → Gets before' after' ns msg n
    → n ≤ m
    → (0 < m → has_room before (header msg).msg_size ≡ true → 0 < n)
    → Gets before after' ns msg m
Gets-weaken before before' after' ns msg n m same g le h = record {
  copies = g.copies;
  carried = g.carried;
  most = omega (arith, g.most);
  least = λ pos' room. g.least (h pos' room) (rw same room);
}

-- One copy and those behind it.
Gets-more :
    (before between after' : Queue Message) (ns : List Message) (msg : Message) (n : ℕ)
    → Gets between after' (ns ++ (msg ∷ [])) msg n
    → Gets before after' ns msg (1 + n)
Gets-more before between after' ns msg n g = record {
  copies = suc g.copies;
  carried = rw⁻¹ (append_assoc ns (msg ∷ []) (replicate g.copies msg)) g.carried;
  most = omega (arith, g.most);
  least = λ h room. omega arith;
}

-- What is on its way after one more message was taken in for the task t.
abbrev with_sent : (ℕ → List Message) → ℕ → Message → ℕ → List Message
with_sent ns t msg u = if t == u then ns u ++ (msg ∷ []) else ns u

with_sent-Carries :
    (s : Shared) (ns : ℕ → List Message) (t : ℕ) (q : Queue Message) (msg : Message)
    → ((u : ℕ) → Carries (s.segments u) (ns u))
    → Carries q (ns t ++ (msg ∷ []))
    → (u : ℕ) → Carries ((with_segment s t q).segments u) (with_sent ns t msg u)
with_sent-Carries s ns t q msg k k' u = elim (Bool-cases (t == u)) [
  | inl same ↦ let at : u ≡ t = ground arith in rw (at, ==_self t) k'
  | inr other ↦
      let apart : t ≢ u = λ e. ground arith in rw (other, segments-with_segment s t u q apart) (k u)
]

refused_same : (s : Shared) (t u : ℕ) → (with_segment s t (s.segments t)).segments u ≡ s.segments u
refused_same s t u = elim (Bool-cases (u == t)) [
  | inl same ↦ let at : u ≡ t = ground arith in rw (at, ==_self t) refl
  | inr other ↦ rw other refl
]

-- The sends of a broadcast succeed, and every task gets its copies.
post_all-Gets :
    (subs : List ℤ) (msg : Message) (s : Shared) (p : Process) (at : ℕ → ℕ) (ns : ℕ → List Message)
    → AreMapped p subs
    → ((u : ℕ) → Carries (s.segments u) (ns u))
    → IsReady msg
    → after msg ≡ msg
    → (s' : Shared) × (post_all subs msg s p at ≡ done (s', p))
      × ((u : ℕ) → Gets (s.segments u) (s'.segments u) (ns u) msg (times subs u))
unfolding post_all
post_all-Gets [] msg s p at ns m k r fixed = (
  s,
  refl,
  λ u. record {
    copies = 0;
    carried = rw (append-nil (ns u)) (k u);
    most = omega arith;
    least = λ h. absurd (omega arith);
  },
)
post_all-Gets (sub ∷ subs) msg s p at ns ((t, base, e, mapped), m) k r fixed =
    elim (send-Carries s p (at t) base msg t (ns t) mapped (k t) r) [
      | inl (room, q, sent, k') ↦
          let next = with_segment s t q in
          let (s', posted, g) =
            post_all-Gets subs msg next p at (with_sent ns t msg) m
              (with_sent-Carries s ns t q msg k k') r fixed in
          (
            s',
            rw (e, sent, fixed, posted),
            λ u. elim (Bool-cases (t == u)) [
              | inl same ↦
                  rw (e, same)
                    (Gets-more (s.segments u) (next.segments u) (s'.segments u) (ns u) msg
                      (times subs u) (rw same at (g u)))
              | inr other ↦
                  let apart : t ≢ u = λ x. ground arith in
                  rw (e, other)
                    (Gets-weaken (s.segments u) (next.segments u) (s'.segments u) (ns u) msg
                      (times subs u) (0 + times subs u) (segments-with_segment s t u q apart)
                      (rw other at (g u)) (omega arith) (λ h free. omega arith))
            ],
          )
      | inr (full, refused) ↦
          let next = with_segment s t (s.segments t) in
          let (s', posted, g) =
            post_all-Gets subs msg next p at ns m (λ u. rw (refused_same s t u) (k u)) r fixed in
          (
            s',
            rw (e, refused, posted),
            λ u. elim (Bool-cases (t == u)) [
              | inl same ↦
                  let at : u ≡ t = ground arith in
                  rw (e, same)
                    (Gets-weaken (s.segments u) (next.segments u) (s'.segments u) (ns u) msg
                      (times subs u) (1 + times subs u) (refused_same s t u) (g u) (omega arith)
                      (λ h free. absurd (ground (arith, full, free, at))))
              | inr other ↦
                  rw (e, other)
                    (Gets-weaken (s.segments u) (next.segments u) (s'.segments u) (ns u) msg
                      (times subs u) (0 + times subs u) (refused_same s t u) (g u) (omega arith)
                      (λ h free. omega arith))
            ],
          )
    ]

-- The message that a station posts.
abbrev pub weather : WeatherStation → IntArrayMsg
weather this = record {
  header = record { tag = pos 2; tid = 5; msg_size = 96; methods = true };
  size = 2;
  values = record { place = Place.owned; items = pos this.task_id ∷ pos 31 ∷ [] };
}

-- A broadcast of a well-formed station that has mapped its subscribers' queues succeeds, whatever is on its way to
-- whom. Every task then has, behind what was on its way to it before, at most as many copies of the weather as it
-- has subscriptions, and at least one if it has any and there was room for one in its queue; so a
-- task with no subscription gets nothing.
pub broadcast-Gets :
    (this : WeatherStation) (memory : IntArrayMsg) (s : Shared) (p : Process) (at : ℕ → ℕ)
    (ns : ℕ → List Message)
    → IsStation this
    → AreMapped p (subscribers this)
    → ((u : ℕ) → Carries (s.segments u) (ns u))
    → (s' : Shared) × (broadcast this memory s p at ≡ done (s', p))
      × ((u : ℕ)
          → Gets
              (s.segments u)
              (s'.segments u)
              (ns u)
              (int_array (weather this))
              (times (subscribers this) u))
unfolding broadcast first_subs build_weather IntArrayMsg.set_values IntArrayMsg.create after
broadcast-Gets this memory s p at ns w m k =
    let ready : IsReady (int_array (weather this)) = record {
      sound = record { classed = refl; sized = omega arith };
      bound = refl;
      small = omega arith;
      owns = omega arith;
    } in
    let within : leb this.sub_count (length this.subs) ≡ true = ground (arith, w.slots, w.count) in
    let (s', posted, g) =
      post_all-Gets (subscribers this) (int_array (weather this)) s p at ns m k ready refl in
    (s', rw (within, posted), g)
