-- ===== src/Tasks/WeatherStationTask/Names.antt =====
-- The name that a station is given.
use francois_gingras_master.Common.{
  ℕ, ◌≤◌, ◌<◌, ◌≡◌, refl, false, true, pos, List, ◌∷◌, length, done, fault, ltb, arith,
}
use francois_gingras_master.Messages.TextMsg.{TextMsg}
use francois_gingras_master.Messages.TextMsg
use francois_gingras_master.Messages.Message.{Message, text}
use francois_gingras_master.System.{Shared, Process, with_segment}
use francois_gingras_master.System.Delivery.{Carries, IsMapped, segments-with_segment_self}
use francois_gingras_master.Tasks.Dispatch.{handles, served, receive_by, receive_by-Reacts}
use francois_gingras_master.Tasks.WeatherStationTask.{
  WeatherStation, reaction, handle_name, strcpy_name,
}

-- A station that receives a name of less than 30 bytes takes it, and the message is gone.
pub receive-name :
    (this : WeatherStation) (s : Shared) (p : Process) (at base : ℕ) (m : TextMsg)
    (ns : List Message)
    → IsMapped p this.task_id base
    → Carries (s.segments this.task_id) (text m ∷ ns)
    → m.tag ≡ pos 0
    → length m.msg < 30
    → (s' : Shared) × (receive_by reaction this s p at this.task_id
        ≡ done (served (record this { station_name = m.msg }) s' p))
      × Carries (s'.segments this.task_id) ns
unfolding reaction handle_name strcpy_name TextMsg.get_msg
receive-name this s p at base m ns mapped k tagged short =
    let t = this.task_id in
    let fits : ltb (length m.msg) 30 ≡ true = ground arith in
    let handling : reaction m.tag ≡ handles handle_name = rw tagged refl in
    let (q, received, left) =
      rw handling at
        (receive_by-Reacts reaction this s p at base t (text m) ns mapped k (rw tagged refl)) in
    (with_segment s t q, rw (received, fits) refl, rw (segments-with_segment_self s t q) left)

-- If a text under the tag 0 of 30 bytes or more, which a TextMsg may hold, is the next message
-- to a station that has mapped its queue, then the station's receive writes behind the field for
-- its name.
pub receive-long_name_fault :
    (this : WeatherStation) (s : Shared) (p : Process) (at base : ℕ) (m : TextMsg)
    (ns : List Message)
    → IsMapped p this.task_id base
    → Carries (s.segments this.task_id) (text m ∷ ns)
    → m.tag ≡ pos 0
    → 30 ≤ length m.msg
    → receive_by reaction this s p at this.task_id ≡ fault
unfolding reaction handle_name strcpy_name TextMsg.get_msg
receive-long_name_fault this s p at base m ns mapped k tagged long =
    let t = this.task_id in
    let wide : ltb (length m.msg) 30 ≡ false = ground arith in
    let handling : reaction m.tag ≡ handles handle_name = rw tagged refl in
    let (q, received, left) =
      rw handling at
        (receive_by-Reacts reaction this s p at base t (text m) ns mapped k (rw tagged refl)) in
    rw (received, wide) refl
