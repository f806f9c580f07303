-- ===== src/Messages/Message.antt =====
-- The type of all messages, the calls through their function pointers, and the table `rebinder` of
-- TaskSystem/src/System/SystemGenerated.c.
pub mod Law
pub mod Transit
use francois_gingras_master.Common.{
  ℕ, ◌+◌, ◌*◌, Bool, ℤ, Option, none, some, List, replicate, set, get_elem?, Outcome, done, fault,
  or_fault, ◌>>=◌, if◌then◌else◌,
}
use francois_gingras_master.Queue.Api.{MessageApi}
use francois_gingras_master.Messages.Header.{Header}
use francois_gingras_master.Messages.BarMsg
use francois_gingras_master.Messages.TextMsg
use francois_gingras_master.Messages.RefIntArrayMsg
use francois_gingras_master.Messages.TopologyMsg
use francois_gingras_master.Messages.IntArrayMsg
use francois_gingras_master.Messages.DoneMsg
use francois_gingras_master.Messages.RefTwoDimIntArrayMsg
use francois_gingras_master.Messages.RequestMsg
use francois_gingras_master.Messages.ResponseMsg

-- An object with the class that its function pointers are of.
pub data Message : Type 0 where
  bar : BarMsg.BarMsg → Message
  text : TextMsg.TextMsg → Message
  ref_int_array : RefIntArrayMsg.RefIntArrayMsg → Message
  topology : TopologyMsg.TopologyMsg → Message
  int_array : IntArrayMsg.IntArrayMsg → Message
  signal : DoneMsg.DoneMsg → Message
  ref_two_dim : RefTwoDimIntArrayMsg.RefTwoDimIntArrayMsg → Message
  request : RequestMsg.RequestMsg → Message
  response : ResponseMsg.ResponseMsg → Message

-- The members that all classes have.
abbrev pub header : Message → Header
header (bar m) = m.header
header (text m) = m.header
header (ref_int_array m) = m.header
header (topology m) = m.header
header (int_array m) = m.header
header (signal m) = m.header
header (ref_two_dim m) = m.header
header (request m) = m.header
header (response m) = m.header

-- The bytes of the object and of the array behind it.
abbrev pub extent : Message → ℕ
extent (bar m) = BarMsg.sizeof_bar
extent (text m) = TextMsg.sizeof_text
extent (ref_int_array m) = RefIntArrayMsg.sizeof_refintarray
extent (topology m) = TopologyMsg.sizeof_topology + m.bucket_count * 4
extent (int_array m) = IntArrayMsg.sizeof_intarray + m.size * 4
extent (signal m) = DoneMsg.sizeof_done
extent (ref_two_dim m) = RefTwoDimIntArrayMsg.sizeof_reftwodimintarray
extent (request m) = RequestMsg.sizeof_request + m.data_size
extent (response m) = ResponseMsg.sizeof_response + m.data_size

clone_of : ℕ → Message → Outcome Message
clone_of at (bar m) = done (bar (BarMsg.clone m m))
clone_of at (text m) = TextMsg.clone m m >>= λ c. done (text c)
clone_of at (ref_int_array m) = done (ref_int_array (RefIntArrayMsg.clone m m))
clone_of at (topology m) = TopologyMsg.clone m at m >>= λ c. done (topology c)
clone_of at (int_array m) = IntArrayMsg.clone m at m >>= λ c. done (int_array c)
clone_of at (signal m) = done (signal (DoneMsg.clone m m))
clone_of at (ref_two_dim m) = done (ref_two_dim (RefTwoDimIntArrayMsg.clone m m))
clone_of at (request m) = RequestMsg.clone at m >>= λ c. done (request c)
clone_of at (response m) = ResponseMsg.clone at m >>= λ c. done (response c)

-- `msg->clone(msg)`. A call through a pointer of another process is a fault. Nothing of the block
-- that the class's constructor allocates is left in the clone, so any stands for it.
unfoldable pub clone : ℕ → Message → Outcome Message
unfolding clone_of
clone at msg = if (header msg).methods then clone_of at msg else fault

write_of : Message → ℕ → Outcome (Message × Message)
write_of (bar m) a = done (bar (BarMsg.write_at m), bar m)
write_of (text m) a = TextMsg.write_at m >>= λ w. done (text w, text m)
write_of (ref_int_array m) a = done (ref_int_array (RefIntArrayMsg.write_at m), ref_int_array m)
write_of (topology m) a = TopologyMsg.write_at m a >>= λ w. done (topology w.0, topology w.1)
write_of (int_array m) a = IntArrayMsg.write_at m a >>= λ w. done (int_array w, int_array m)
write_of (signal m) a = done (signal (DoneMsg.write_at m), signal m)
write_of (ref_two_dim m) a = done (ref_two_dim (RefTwoDimIntArrayMsg.write_at m), ref_two_dim m)
write_of (request m) a = RequestMsg.write_at m a >>= λ w. done (request w, request m)
write_of (response m) a = ResponseMsg.write_at m a >>= λ w. done (response w, response m)

-- `item->writeAt(item, addr)`: the object that it leaves, and the item afterwards.
unfoldable pub write_at : Message → ℕ → Outcome (Message × Message)
unfolding write_of
write_at msg a = if (header msg).methods then write_of msg a else fault

-- An entry of the table. It casts the object to its class; one of another class is a fault.
abbrev pub Rebinder : Type 0
Rebinder = ℕ → Message → Outcome Message

bar_rebind : Rebinder
bar_rebind at (bar m) = done (bar (BarMsg.rebind m))
bar_rebind at _ = fault

text_rebind : Rebinder
text_rebind at (text m) = done (text (TextMsg.rebind m))
text_rebind at _ = fault

ref_int_array_rebind : Rebinder
ref_int_array_rebind at (ref_int_array m) = done (ref_int_array (RefIntArrayMsg.rebind m))
ref_int_array_rebind at _ = fault

topology_rebind : Rebinder
topology_rebind at (topology m) = done (topology (TopologyMsg.rebind at m))
topology_rebind at _ = fault

int_array_rebind : Rebinder
int_array_rebind at (int_array m) = done (int_array (IntArrayMsg.rebind at m))
int_array_rebind at _ = fault

signal_rebind : Rebinder
signal_rebind at (signal m) = done (signal (DoneMsg.rebind m))
signal_rebind at _ = fault

ref_two_dim_rebind : Rebinder
ref_two_dim_rebind at (ref_two_dim m) = done (ref_two_dim (RefTwoDimIntArrayMsg.rebind m))
ref_two_dim_rebind at _ = fault

request_rebind : Rebinder
request_rebind at (request m) = done (request (RequestMsg.rebind at m))
request_rebind at _ = fault

response_rebind : Rebinder
response_rebind at (response m) = done (response (ResponseMsg.rebind at m))
response_rebind at _ = fault

-- MAX_MESSAGE_TYPE
abbrev pub max_message_type : ℕ
max_message_type = 20

-- The table that `build_mapping` leaves in `rebinder`.
unfoldable pub build_mapping : List (Option Rebinder)
unfolding bar_rebind text_rebind ref_int_array_rebind topology_rebind int_array_rebind signal_rebind
    ref_two_dim_rebind request_rebind response_rebind
build_mapping =
    let cleared = replicate max_message_type none in
    let t1 = set cleared 1 (some bar_rebind) in
    let t2 = set t1 2 (some text_rebind) in
    let t3 = set t2 3 (some ref_int_array_rebind) in
    let t4 = set t3 4 (some topology_rebind) in
    let t5 = set t4 5 (some int_array_rebind) in
    let t6 = set t5 6 (some signal_rebind) in
    let t7 = set t6 7 (some ref_two_dim_rebind) in
    let t8 = set t7 8 (some request_rebind) in set t8 9 (some response_rebind)

-- `rebinder[tid]`
unfoldable pub rebinder : ℕ → Outcome (Option Rebinder)
unfolding build_mapping
rebinder tid = or_fault (get_elem? build_mapping tid)

abbrev pub message_api : MessageApi
message_api = record {
  Msg = Message;
  tag = λ m. (header m).tag;
  tid = λ m. (header m).tid;
  msg_size = λ m. (header m).msg_size;
  extent = extent;
  clone = clone;
  write_at = write_at;
  rebinder = rebinder;
}
