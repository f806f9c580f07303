-- ===== src/Messages/Message/Law.antt =====
-- All nine classes meet what the queue asks of messages.
use francois_gingras_master.Common.{
  ℕ, ◌+◌, ◌*◌, ◌%◌, ◌^◌, ◌≤◌, ◌<◌, ◌≡◌, refl, true, false, some, done, take, length, arith, word,
}
use francois_gingras_master.Queue.Api.{IsLawful, q_size}
use francois_gingras_master.Messages.Header.{Place, IsOwned, read_array_owned}
use francois_gingras_master.Messages.BarMsg
use francois_gingras_master.Messages.TextMsg
use francois_gingras_master.Messages.RefIntArrayMsg
use francois_gingras_master.Messages.TopologyMsg
use francois_gingras_master.Messages.IntArrayMsg
use francois_gingras_master.Messages.DoneMsg
use francois_gingras_master.Messages.RefTwoDimIntArrayMsg
use francois_gingras_master.Messages.RequestMsg
use francois_gingras_master.Messages.ResponseMsg
use francois_gingras_master.Messages.Message.{
  Message, bar, text, ref_int_array, topology, int_array, signal, ref_two_dim, request, response,
  header, extent, write_at, rebinder, Rebinder, message_api, bar_rebind, text_rebind,
  ref_int_array_rebind, topology_rebind, int_array_rebind, signal_rebind, ref_two_dim_rebind,
  request_rebind, response_rebind,
}

-- The number under which the constructor of the class registers it.
abbrev pub class_id : Message → ℕ
class_id (bar m) = BarMsg.bar_msg_id
class_id (text m) = TextMsg.text_msg_id
class_id (ref_int_array m) = RefIntArrayMsg.refintarray_msg_id
class_id (topology m) = TopologyMsg.topology_msg_id
class_id (int_array m) = IntArrayMsg.intarray_msg_id
class_id (signal m) = DoneMsg.done_msg_id
class_id (ref_two_dim m) = RefTwoDimIntArrayMsg.reftwodimintarray_msg_id
class_id (request m) = RequestMsg.request_msg_id
class_id (response m) = ResponseMsg.response_msg_id

-- What the message points to is its own and long enough; a text ends within its field.
abbrev pub Owns : Message → Type 0
Owns (bar m) = Unit
Owns (text m) = length m.msg < 100
Owns (ref_int_array m) = Unit
Owns (topology m) = IsOwned m.bucket_ids m.bucket_count
Owns (int_array m) = IsOwned m.values m.size
Owns (signal m) = Unit
Owns (ref_two_dim m) = Unit
Owns (request m) = IsOwned m.payload m.data_size
Owns (response m) = IsOwned m.payload m.data_size

-- The type number is the class's, and `msg_size` counts at least the bytes of the object.
pub record IsSound (m : Message) : Type 0 where
  pub classed : (header m).tid ≡ class_id m
  pub sized : extent m ≤ (header m).msg_size

-- A message that a task may send.
pub record IsReady (m : Message) : Type 0 where
  pub sound : IsSound m
  pub bound : (header m).methods ≡ true
  pub small : (header m).msg_size + q_size < 2 ^ 31
  pub owns : Owns m

-- What `writeAt` leaves at an address: the fields, the array behind the struct, no methods.
unfoldable pub image : Message → ℕ → Message
image (bar m) a = bar (record m { header = record (m.header) { methods = false } })
image (text m) a = text (record m { header = record (m.header) { methods = false } })
image (ref_int_array m) a =
    ref_int_array (record m { header = record (m.header) { methods = false } })
image (topology m) a = topology (record m {
  header = record (m.header) { methods = false };
  bucket_ids = record {
    place = Place.inline (a + TopologyMsg.sizeof_topology);
    items = take m.bucket_count m.bucket_ids.items;
  };
})
image (int_array m) a = int_array (record m {
  header = record (m.header) { methods = false };
  values = record {
    place = Place.inline (a + IntArrayMsg.sizeof_intarray);
    items = take m.size m.values.items;
  };
})
image (signal m) a = signal (record m { header = record (m.header) { methods = false } })
image (ref_two_dim m) a = ref_two_dim (record m { header = record (m.header) { methods = false } })
image (request m) a = request (record m {
  header = record (m.header) { methods = false };
  payload = record {
    place = Place.inline (a + RequestMsg.sizeof_request);
    items = take m.data_size m.payload.items;
  };
})
image (response m) a = response (record m {
  header = record (m.header) { methods = false };
  payload = record {
    place = Place.inline (a + ResponseMsg.sizeof_response);
    items = take m.data_size m.payload.items;
  };
})

-- The sender's object after `writeAt`: only a topology changes.
unfoldable pub after : Message → Message
after (topology m) = topology (record m {
  header = record (m.header) { msg_size = (m.msg_size + m.bucket_count * 4) % word };
})
after m = m

-- The object after the table's function.
unfoldable pub rebound : ℕ → Message → Message
rebound a (bar m) = bar (BarMsg.rebind m)
rebound a (text m) = text (TextMsg.rebind m)
rebound a (ref_int_array m) = ref_int_array (RefIntArrayMsg.rebind m)
rebound a (topology m) = topology (TopologyMsg.rebind a m)
rebound a (int_array m) = int_array (IntArrayMsg.rebind a m)
rebound a (signal m) = signal (DoneMsg.rebind m)
rebound a (ref_two_dim m) = ref_two_dim (RefTwoDimIntArrayMsg.rebind m)
rebound a (request m) = request (RequestMsg.rebind a m)
rebound a (response m) = response (ResponseMsg.rebind a m)

pub extent-pos : (m : Message) → 0 < extent m
extent-pos (bar m) = omega arith
extent-pos _ = omega arith

pub write_at-image : (m : Message) (a : ℕ) → IsReady m → write_at m a ≡ done (image m a, after m)
unfolding write_at image after BarMsg.write_at TextMsg.write_at RefIntArrayMsg.write_at
    TopologyMsg.write_at IntArrayMsg.write_at DoneMsg.write_at RefTwoDimIntArrayMsg.write_at
    RequestMsg.write_at ResponseMsg.write_at TextMsg.strcpy_msg
write_at-image (bar m) a r = rw r.bound
write_at-image (text m) a r = ground (arith, r.bound, r.owns)
write_at-image (ref_int_array m) a r = rw r.bound
write_at-image (topology m) a r =
    rw (r.bound, read_array_owned 0 m.bucket_ids m.bucket_count r.owns)
write_at-image (int_array m) a r = rw (r.bound, read_array_owned 0 m.values m.size r.owns)
write_at-image (signal m) a r = rw r.bound
write_at-image (ref_two_dim m) a r = rw r.bound
write_at-image (request m) a r = rw (r.bound, read_array_owned 0 m.payload m.data_size r.owns)
write_at-image (response m) a r = rw (r.bound, read_array_owned 0 m.payload m.data_size r.owns)

pub image-IsSound : (m : Message) (a : ℕ) → IsReady m → IsSound (image m a)
unfolding image
image-IsSound (bar m) a r = record { classed = r.sound.classed; sized = r.sound.sized }
image-IsSound _ a r = record { classed = r.sound.classed; sized = r.sound.sized }

pub msg_size-image : (m : Message) (a : ℕ) → (header (image m a)).msg_size ≡ (header m).msg_size
unfolding image
msg_size-image (bar m) a = refl
msg_size-image _ a = refl

pub extent-rebound : (m : Message) (a : ℕ) → extent (rebound a m) ≡ extent m
unfolding rebound BarMsg.rebind TextMsg.rebind RefIntArrayMsg.rebind TopologyMsg.rebind
    IntArrayMsg.rebind DoneMsg.rebind RefTwoDimIntArrayMsg.rebind RequestMsg.rebind
    ResponseMsg.rebind
extent-rebound (bar m) a = refl
extent-rebound _ a = refl

-- The table's entry under the number of a class casts to that class.
pub rebinder-rebound :
    (m : Message)
    → (header m).tid ≡ class_id m
    → (f : Rebinder) × (rebinder (header m).tid ≡ done (some f))
      × ((a : ℕ) → f a m ≡ done (rebound a m))
unfolding rebinder rebound bar_rebind text_rebind ref_int_array_rebind topology_rebind
    int_array_rebind signal_rebind ref_two_dim_rebind request_rebind response_rebind
rebinder-rebound (bar m) e = (bar_rebind, rw e, λ a. refl)
rebinder-rebound (text m) e = (text_rebind, rw e, λ a. refl)
rebinder-rebound (ref_int_array m) e = (ref_int_array_rebind, rw e, λ a. refl)
rebinder-rebound (topology m) e = (topology_rebind, rw e, λ a. refl)
rebinder-rebound (int_array m) e = (int_array_rebind, rw e, λ a. refl)
rebinder-rebound (signal m) e = (signal_rebind, rw e, λ a. refl)
rebinder-rebound (ref_two_dim m) e = (ref_two_dim_rebind, rw e, λ a. refl)
rebinder-rebound (request m) e = (request_rebind, rw e, λ a. refl)
rebinder-rebound (response m) e = (response_rebind, rw e, λ a. refl)

abbrev pub message_law : IsLawful message_api
message_law = record {
  IsReady = IsReady;
  IsSound = IsSound;
  image = image;
  after = after;
  rebound = rebound;
  extent-pos = extent-pos;
  extent-le = λ m s. s.sized;
  msg_size-small = λ m r. r.small;
  write_at-image = write_at-image;
  image-IsSound = image-IsSound;
  msg_size-image = msg_size-image;
  rebinder-rebound = λ m s. rebinder-rebound m s.classed;
  extent-rebound = extent-rebound;
}
