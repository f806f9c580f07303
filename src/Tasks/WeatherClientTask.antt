-- ===== src/Tasks/WeatherClientTask.antt =====
-- TaskSystem/src/Tasks/WeatherClientTask/WeatherClientTask.c and its generated.h: a task that
-- subscribes to a station and prints what the station posts.
use francois_gingras_master.Common.{
  ℕ, ◌≡◌, refl, true, inl, inr, ℤ, pos, negsuc, List, [], ◌∷◌, ◌++◌, Outcome, done, fault, ◌>>=◌,
  ◌==ℤ◌, if◌then◌else◌, arith,
}
use francois_gingras_master.Queue.Enqueue.{has_room}
use francois_gingras_master.Messages.BarMsg.{BarMsg}
use francois_gingras_master.Messages.BarMsg
use francois_gingras_master.Messages.TextMsg.{TextMsg}
use francois_gingras_master.Messages.TextMsg
use francois_gingras_master.Messages.IntArrayMsg.{IntArrayMsg}
use francois_gingras_master.Messages.IntArrayMsg
use francois_gingras_master.Messages.Header.{read_array}
use francois_gingras_master.Messages.Message.{Message, bar, text, int_array}
use francois_gingras_master.Messages.Message.Law.{IsReady}
use francois_gingras_master.System.{Shared, Process, with_segment, send}
use francois_gingras_master.System.Repository.{Repository, repository_get_id}
use francois_gingras_master.System.Delivery.{
  Carries, IsMapped, send-Carries, segments-with_segment_self,
}
use francois_gingras_master.Tasks.Dispatch.{
  task_index, Reaction, handles, leaves, drops, served, receive_by, receive_by-Reacts,
}
use francois_gingras_master.Tasks.Spawn.{spawn}
use francois_gingras_master.Tasks.WeatherStationTask.{
  WeatherStation, IsStation, strcpy_name, handle_sub, add_sub,
}
use francois_gingras_master.Tasks.WeatherStationTask
use francois_gingras_master.Tasks.WeatherStationTask.Broadcast.{weather}

-- `printed` is what the task has written of the weather: the station and the degrees.
pub record WeatherClient : Type 0 where
  pub task_id : ℕ
  pub close_order : ℤ
  pub station_name : List ℕ
  pub printed : List (ℤ × ℤ)

-- WeatherClientTask_create: the name stays as `malloc` left it.
unfoldable pub create :
    WeatherClient → Shared → Process → ℕ → Outcome (WeatherClient × Shared × Process)
create memory s p at = do
  (id, s', p') ← spawn s p at
  done (record memory { task_id = id; close_order = pos 0 }, s', p')

-- `strcpy` into a field of 30 bytes, as the station's.
unfoldable pub handle_name : WeatherClient → Message → Outcome WeatherClient
handle_name this (text m) = do
  name ← strcpy_name (TextMsg.get_msg m)
  done (record this { station_name = name })
handle_name this _ = fault

-- The message is a clone, so its values are in a block of their own and its address is not needed.
unfoldable pub handle_post : WeatherClient → Message → Outcome WeatherClient
handle_post this (int_array m) = do
  station ← IntArrayMsg.get_value 0 m 0
  degrees ← IntArrayMsg.get_value 0 m 1
  done (record this { printed = this.printed ++ ((station, degrees) ∷ []) })
handle_post this _ = fault

unfoldable pub reaction : ℤ → Reaction WeatherClient
reaction tag =
    if tag ==ℤ pos 0
    then handles handle_name
    else if tag ==ℤ pos 1
    then leaves
    else if tag ==ℤ pos 2
    then handles handle_post
    else drops

-- The part of `start` between the name and the loop: look the station up and subscribe. `memory` is
-- the block that the message's constructor allocates.
unfoldable pub subscribe :
    WeatherClient → Repository → BarMsg → Shared → Process → ℕ → Outcome (Shared × Process)
subscribe this names memory s p at = do
  station_id ← repository_get_id names this.station_name
  let sub_msg = BarMsg.set_value (BarMsg.create (pos 1) memory) (pos this.task_id)
  target ← task_index station_id
  (flag, msg, s', p') ← send s p at (bar sub_msg) target
  done (s', p')

-- A client that asks for a name that no task has subscribes to the task -1: that is outside the table of queues.
pub subscribe-unknown_fault :
    (this : WeatherClient) (names : Repository) (memory : BarMsg) (s : Shared) (p : Process)
    (at : ℕ)
    → repository_get_id names this.station_name ≡ done (negsuc 0)
    → subscribe this names memory s p at ≡ fault
unfolding subscribe
subscribe-unknown_fault this names memory s p at e = rw e refl

-- A client whose station is known subscribes, and the station receives. If both have mapped the
-- station's queue, which is empty and has room for the message, then the station has treated the
-- client as a new subscriber and its queue is empty again.
pub subscribe-add_sub :
    (this : WeatherClient) (names : Repository) (memory : BarMsg) (station : WeatherStation)
    (s : Shared) (client server : Process) (at own_at base base' : ℕ)
    → repository_get_id names this.station_name ≡ done (pos station.task_id)
    → IsMapped client station.task_id base
    → IsMapped server station.task_id base'
    → Carries (s.segments station.task_id) []
    → has_room (s.segments station.task_id) 72 ≡ true
    → (s1 : Shared) × (s2 : Shared) × (subscribe this names memory s client at ≡ done (s1, client))
      × (receive_by WeatherStationTask.reaction station s1 server own_at station.task_id
          ≡ done (served (add_sub station (pos this.task_id)) s2 server))
      × Carries (s2.segments station.task_id) []
unfolding subscribe WeatherStationTask.reaction handle_sub BarMsg.create BarMsg.set_value
    BarMsg.get_value
subscribe-add_sub this names memory station s client server at own_at base base' known mapped
      mapped' k room =
    let t = station.task_id in
    let msg = bar (BarMsg.set_value (BarMsg.create (pos 1) memory) (pos this.task_id)) in
    let ready : IsReady msg = record {
      sound = record { classed = refl; sized = omega arith };
      bound = refl;
      small = omega arith;
      owns = tt;
    } in
    elim (send-Carries s client at base msg t [] mapped k ready) [
      | inl (_, q, sent, k') ↦
          let next = with_segment s t q in
          let own = segments-with_segment_self s t q in
          let (q', received, left) =
            receive_by-Reacts WeatherStationTask.reaction station next server own_at base' t msg []
              mapped' (rw own k') refl in
          (
            next,
            with_segment next t q',
            rw (known, sent) refl,
            received,
            rw (segments-with_segment_self next t q') left,
          )
      | inr (full, _) ↦ absurd (cc)
    ]

-- A client that receives the weather of a station prints the station's id and the degrees, once, and
-- the message is gone from its queue.
pub receive-weather :
    (this : WeatherClient) (station : WeatherStation) (s : Shared) (p : Process) (at base : ℕ)
    (ns : List Message)
    → IsMapped p this.task_id base
    → Carries (s.segments this.task_id) (int_array (weather station) ∷ ns)
    → (s' : Shared) × (receive_by reaction this s p at this.task_id
        ≡ done (
            served
              (record this { printed = this.printed ++ ((pos station.task_id, pos 31) ∷ []) })
              s'
              p))
      × Carries (s'.segments this.task_id) ns
unfolding reaction handle_post IntArrayMsg.get_value read_array
receive-weather this station s p at base ns mapped k =
    let t = this.task_id in
    let (q, received, left) =
      receive_by-Reacts reaction this s p at base t (int_array (weather station)) ns mapped k
        refl in
    (with_segment s t q, received, rw (segments-with_segment_self s t q) left)
