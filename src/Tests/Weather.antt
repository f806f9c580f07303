-- ===== src/Tests/Weather.antt =====
-- The theorems on the weather and demonstration tasks.
use francois_gingras_master.Common.{
  ◌≢◌, ◌⊎◌, get_elem?, ℕ, ◌≡◌, refl, true, false, pos, [], ◌∷◌, ◌++◌, replicate, done, fault, arith,
}
use francois_gingras_master.Queue.{Queue, create_queue}
use francois_gingras_master.Queue.Invariant.{Holds, straight}
use francois_gingras_master.Queue.Memory.{load}
use francois_gingras_master.Messages.BarMsg.{BarMsg}
use francois_gingras_master.Messages.TextMsg.{TextMsg}
use francois_gingras_master.Messages.IntArrayMsg.{IntArrayMsg}
use francois_gingras_master.Messages.Header.{null_array}
use francois_gingras_master.Messages.Message.{Message, text, int_array}
use francois_gingras_master.Messages.Message.Law.{IsReady, image, message_law}
use francois_gingras_master.System.{Shared}
use francois_gingras_master.System.Delivery.{Carries}
use francois_gingras_master.System.Repository.{Repository, repository_get_id, search_name}
use francois_gingras_master.Tasks.Dispatch.{served, receive_by}
use francois_gingras_master.Tasks.WeatherStationTask.{
  WeatherStation, IsStation, add_sub, subscribers, reaction, broadcast, add_sub-subscribers,
}
use francois_gingras_master.Tasks.WeatherStationTask.Broadcast.{
  Gets, times, weather, broadcast-Gets,
}
use francois_gingras_master.Tasks.WeatherStationTask.Names.{receive-long_name_fault}
use francois_gingras_master.Tasks.WeatherClientTask.{WeatherClient, subscribe, subscribe-add_sub}
use francois_gingras_master.Tests.Samples.{
  everywhere, mapped_three, mapped_both, nothing-Carries, blank_queue-room,
}

-- A station with one subscriber, the task 1.
abbrev station : WeatherStation
station = record {
  task_id = 3;
  close_order = pos 0;
  station_name = [];
  sub_count = 1;
  subs = pos 1 ∷ replicate 49 (pos 0);
}

station-IsStation : IsStation station
station-IsStation = record { slots = refl; count = omega arith }

add_sub-subscribers_example :
    IsStation (add_sub station (pos 2))
    × (subscribers (add_sub station (pos 2)) ≡ pos 1 ∷ pos 2 ∷ [])
    × ((add_sub station (pos 2)).station_name ≡ [])
    × ((add_sub station (pos 2)).task_id ≡ 3)
    × ((add_sub station (pos 2)).close_order ≡ pos 0)
    × ((j : ℕ) → 1 ≢ j → get_elem? (add_sub station (pos 2)).subs j ≡ get_elem? station.subs j)
    × ((true ≡ true) ⊎ (add_sub station (pos 2) ≡ station))
add_sub-subscribers_example = add_sub-subscribers station (pos 2) station-IsStation

abbrev block : IntArrayMsg
block = record {
  header = record { tag = pos 0; tid = 0; msg_size = 0; methods = false };
  size = 0;
  values = null_array;
}

broadcast-Gets_example :
    (s' : Shared) × (broadcast station block (everywhere create_queue) mapped_both (λ t. 0)
      ≡ done (s', mapped_both))
    × ((u : ℕ)
        → Gets create_queue (s'.segments u) [] (int_array (weather station)) (times (pos 1 ∷ []) u))
broadcast-Gets_example =
    broadcast-Gets station block (everywhere create_queue) mapped_both (λ t. 0) (λ u. [])
      station-IsStation ((1, 8192, refl, refl), tt) (λ u. nothing-Carries)

-- The names "a" of the task 3 and no other.
abbrev names : Repository
names = record {
  task_name =
      replicate 3 (replicate 100 0) ++ ((97 ∷ replicate 99 0) ∷ replicate 26 (replicate 100 0));
  task_has_name = 0 ∷ 0 ∷ 0 ∷ 1 ∷ replicate 96 0;
}

abbrev asker : WeatherClient
asker = record { task_id = 1; close_order = pos 0; station_name = 97 ∷ []; printed = [] }

abbrev pub bar_block : BarMsg
bar_block = record {
  header = record { tag = pos 0; tid = 0; msg_size = 0; methods = false };
  value = pos 0;
}

known : repository_get_id names (97 ∷ []) ≡ done (pos 3)
unfolding repository_get_id search_name
known = refl

subscribe-add_sub_example :
    (s1 : Shared) × (s2 : Shared) × (subscribe asker names bar_block
        (everywhere create_queue)
        mapped_both
        0
      ≡ done (s1, mapped_both))
    × (receive_by reaction station s1 mapped_three 0 3
        ≡ done (served (add_sub station (pos 1)) s2 mapped_three))
    × Carries (s2.segments 3) []
subscribe-add_sub_example =
    subscribe-add_sub asker names bar_block station (everywhere create_queue) mapped_both
      mapped_three 0 0 4096 4096 known refl refl nothing-Carries (blank_queue-room 72 (omega arith))

-- A name of 31 bytes.
abbrev long_name : TextMsg
long_name = record {
  header = record { tag = pos 0; tid = 2; msg_size = 168; methods = true };
  msg = replicate 31 97;
}

long_name-IsReady : IsReady (text long_name)
long_name-IsReady = record {
  sound = record { classed = refl; sized = omega arith };
  bound = refl;
  small = omega arith;
  owns = omega arith;
}

abbrev named : Queue Message
named = record {
  mem = (56, image (text long_name) 4152) ∷ [];
  head = 56;
  tail = 224;
  size = 1;
  rollover_position = 4294967295;
}

named-Holds : Holds message_law named (image (text long_name) 4152 ∷ [])
unfolding load image
named-Holds =
    straight refl (omega arith) (omega arith)
      (refl, record { classed = refl; sized = omega arith }, refl) refl

named-Carries : Carries named (text long_name ∷ [])
named-Carries = (image (text long_name) 4152 ∷ [], named-Holds, (4152, refl, long_name-IsReady, tt))

receive-long_name_fault_example :
    receive_by reaction station (everywhere named) mapped_three 0 3 ≡ fault
receive-long_name_fault_example =
    receive-long_name_fault station (everywhere named) mapped_three 0 4096 long_name [] refl
      named-Carries refl (omega arith)
