-- ===== src/Tasks/WeatherStationTask.antt =====
-- TaskSystem/src/Tasks/WeatherStationTask/WeatherStationTask.c and its generated.h: a station that
-- tasks subscribe to, and that sends all of them the weather from time to time.
pub mod Broadcast
pub mod Names
use francois_gingras_master.Common.{
  ◌≢◌, ◌⊎◌, get_elem?, get_elem?-set_ne, ℕ, zero, suc, ◌+◌, ◌%◌, ◌≤◌, ◌≡◌, refl, ap, true, Bool,
  Bool-cases, inl, inr, ℤ, pos, List, [], ◌∷◌, ◌++◌, length, length-set, take, set, Outcome, done,
  fault, ◌>>=◌, ltb, leb, ◌==◌, ◌==ℤ◌, if◌then◌else◌, arith,
}
use francois_gingras_master.Messages.BarMsg.{BarMsg}
use francois_gingras_master.Messages.BarMsg
use francois_gingras_master.Messages.TextMsg.{TextMsg}
use francois_gingras_master.Messages.TextMsg
use francois_gingras_master.Messages.IntArrayMsg.{IntArrayMsg}
use francois_gingras_master.Messages.IntArrayMsg
use francois_gingras_master.Messages.Message.{Message, bar, text, int_array}
use francois_gingras_master.System.{Shared, Process, send, message_immediate}
use francois_gingras_master.Tasks.Dispatch.{
  task_index, Reaction, handles, leaves, drops, Received, waits, served, receive_by,
}
use francois_gingras_master.Tasks.Spawn.{spawn}

-- `station_name` is the text up to its NUL byte, `subs` the 50 ints of the array.
pub record WeatherStation : Type 0 where
  pub task_id : ℕ
  pub close_order : ℤ
  pub station_name : List ℕ
  pub sub_count : ℕ
  pub subs : List ℤ

-- WeatherStationTask_create: the name and the array stay as `malloc` left them.
unfoldable pub create :
    WeatherStation → Shared → Process → ℕ → Outcome (WeatherStation × Shared × Process)
create memory s p at = do
  (id, s', p') ← spawn s p at
  done (record memory { task_id = id; close_order = pos 0; sub_count = 0 }, s', p')

-- `strcpy` into the field `char station_name[30]`: the NUL byte must fit too.
unfoldable pub strcpy_name : List ℕ → Outcome (List ℕ)
strcpy_name name = if ltb (length name) 30 then done name else fault

-- The handlers cast the message; one of another class is a fault.
unfoldable pub handle_name : WeatherStation → Message → Outcome WeatherStation
unfolding strcpy_name
handle_name this (text m) = do
  name ← strcpy_name (TextMsg.get_msg m)
  done (record this { station_name = name })
handle_name this _ = fault

-- With 50 subscribers the new one is only reported.
unfoldable pub add_sub : WeatherStation → ℤ → WeatherStation
add_sub this new_sub_id =
    if ltb this.sub_count 50
    then record this {
      subs = set this.subs this.sub_count new_sub_id;
      sub_count = this.sub_count + 1;
    }
    else this

unfoldable pub handle_sub : WeatherStation → Message → Outcome WeatherStation
unfolding add_sub
handle_sub this (bar m) = done (add_sub this (BarMsg.get_value m))
handle_sub this _ = fault

unfoldable pub reaction : ℤ → Reaction WeatherStation
reaction tag =
    if tag ==ℤ pos 0
    then handles handle_name
    else if tag ==ℤ pos 1
    then handles handle_sub
    else if tag ==ℤ pos 2
    then leaves
    else drops

-- The message with the weather. `memory` is the block that its constructor allocates.
unfoldable pub build_weather : WeatherStation → IntArrayMsg → Outcome IntArrayMsg
build_weather this memory =
    IntArrayMsg.set_values (IntArrayMsg.create (pos 2) memory) 2 (pos this.task_id ∷ pos 31 ∷ [])

-- The loop over the subscribers. `at` gives the address where `mmap` puts a task's queue.
unfoldable pub post_all : List ℤ → Message → Shared → Process → (ℕ → ℕ) → Outcome (Shared × Process)
post_all [] msg s p at = done (s, p)
post_all (sub ∷ subs) msg s p at = do
  target ← task_index sub
  (flag, msg', s', p') ← send s p (at target) msg target
  post_all subs msg' s' p' at

-- The first entries of the array; more than it has are a fault.
unfoldable pub first_subs : WeatherStation → Outcome (List ℤ)
first_subs this =
    if leb this.sub_count (length this.subs) then done (take this.sub_count this.subs) else fault

unfoldable pub broadcast :
    WeatherStation → IntArrayMsg → Shared → Process → (ℕ → ℕ) → Outcome (Shared × Process)
broadcast this memory s p at = do
  msg ← build_weather this memory
  targets ← first_subs this
  post_all targets (int_array msg) s p at

-- A turn of the loop up to the broadcast: a message is received if there is one.
unfoldable pub look : WeatherStation → Shared → Process → ℕ → Outcome (Received WeatherStation)
look this s p own_at = do
  (none_there, p') ← message_immediate s p own_at this.task_id
  if none_there then done (served this s p') else receive_by reaction this s p' own_at this.task_id

-- The rest of the turn: every 10000000th turn broadcasts, and the count starts again.
unfoldable pub tick :
    WeatherStation → ℕ → IntArrayMsg → Shared → Process → (ℕ → ℕ) → Outcome (ℕ × Shared × Process)
tick this loop_count memory s p at =
    let count = loop_count + 1 in
    if (count % 10000000) == 0
    then (broadcast this memory s p at >>= λ r. done (0, r.0, r.1))
    else done (count, s, p)

-- What is left after a look at the queue.
after_look : WeatherStation → Shared → Received WeatherStation → WeatherStation × Shared × Process
after_look this s (waits p) = (this, s, p)
after_look this s (served this' s' p) = (this', s', p)

-- One turn of the loop.
unfoldable pub turn :
    WeatherStation
    → ℕ
    → IntArrayMsg
    → Shared
    → Process
    → ℕ
    → (ℕ → ℕ)
    → Outcome (WeatherStation × ℕ × Shared × Process)
unfolding after_look
turn this loop_count memory s p own_at at = do
  seen ← look this s p own_at
  let (this', s', p') = after_look this s seen
  (count, s'', p'') ← tick this' loop_count memory s' p' at
  done (this', count, s'', p'')

-- The loop, for at most `n` turns; nothing sets `close_order`, so it has no end.
unfoldable pub turns :
    ℕ
    → WeatherStation
    → ℕ
    → IntArrayMsg
    → Shared
    → Process
    → ℕ
    → (ℕ → ℕ)
    → Outcome (WeatherStation × ℕ × Shared × Process)
turns zero this loop_count memory s p own_at at = done (this, loop_count, s, p)
turns (suc n) this loop_count memory s p own_at at =
    if this.close_order ==ℤ pos 0
    then (turn this loop_count memory s p own_at at >>= λ r.
        turns n r.0 r.1 memory r.2 r.3 own_at at)
    else done (this, loop_count, s, p)

-- The array has its 50 entries, the subscribers are in the first ones.
pub record IsStation (this : WeatherStation) : Type 0 where
  pub slots : length this.subs ≡ 50
  pub count : this.sub_count ≤ 50

-- The subscribers, in the order in which they came.
abbrev pub subscribers : WeatherStation → List ℤ
subscribers this = take this.sub_count this.subs

take-set :
    (xs : List ℤ) (n : ℕ) (v : ℤ)
    → suc n ≤ length xs
    → take (suc n) (set xs n v) ≡ take n xs ++ (v ∷ [])
take-set [] n v h = elim h [ ]
take-set (x ∷ xs) zero v h = refl
take-set (x ∷ xs) (suc n) v h = ap (λ l. x ∷ l) (take-set xs n v (omega arith))

-- On a well-formed station a subscription puts the task behind the other subscribers if these are
-- less than 50; then it changes neither the name, the id and the close order of the station nor
-- any other place of its array. Otherwise it changes nothing at all. The station stays well-formed.
pub add_sub-subscribers :
    (this : WeatherStation) (id : ℤ)
    → IsStation this
    → IsStation (add_sub this id)
      × (subscribers (add_sub this id)
          ≡ (if ltb this.sub_count 50 then subscribers this ++ (id ∷ []) else subscribers this))
      × ((add_sub this id).station_name ≡ this.station_name)
      × ((add_sub this id).task_id ≡ this.task_id)
      × ((add_sub this id).close_order ≡ this.close_order)
      × ((j : ℕ) → this.sub_count ≢ j → get_elem? (add_sub this id).subs j ≡ get_elem? this.subs j)
      × ((ltb this.sub_count 50 ≡ true) ⊎ (add_sub this id ≡ this))
unfolding add_sub
add_sub-subscribers this id w = elim (Bool-cases (ltb this.sub_count 50)) [
  | inl room ↦
      let next : this.sub_count + 1 ≡ suc this.sub_count = omega arith in
      rw (room, next)
        (
          record {
            slots = rw (length-set this.subs this.sub_count id) w.slots;
            count = ground arith;
          },
          take-set this.subs this.sub_count id (ground (arith, w.slots)),
          refl,
          refl,
          refl,
          λ j other. get_elem?-set_ne this.subs id other,
          inl refl,
        )
  | inr full ↦ rw full (w, refl, refl, refl, refl, λ j other. refl, inr refl)
]
