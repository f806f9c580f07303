-- ===== src/Messages/RequestMsg.antt =====
-- TaskSystem/src/Messages/RequestMsg/RequestMsg.c and its headers: a request to the database.
use francois_gingras_master.Common.{
  ℕ, ◌+◌, ◌%◌, ℤ, pos, negsuc, true, false, List, Outcome, done, fault, ◌>>=◌, length, take, leb,
  if◌then◌else◌, word,
}
use francois_gingras_master.Messages.Header.{Header, Array, Place, null_array, read_array}

-- The data are bytes.
pub record RequestMsg : Type 0 where
  pub header : Header
  pub open header use *
  pub sender_task_id : ℤ
  pub request_type : ℤ
  pub data_size : ℕ
  pub payload : Array ℕ

abbrev pub request_msg_id : ℕ
request_msg_id = 8

-- sizeof(struct RequestMsg)
abbrev pub sizeof_request : ℕ
sizeof_request = 88

-- Every field is set, so nothing of the allocated block is left.
unfoldable pub create : ℤ → RequestMsg
create tag = record {
  header = record { tag = tag; tid = request_msg_id; msg_size = sizeof_request; methods = true };
  data_size = 0;
  payload = null_array;
  sender_task_id = negsuc 0;
  request_type = negsuc 0;
}

unfoldable pub get_tag : RequestMsg → ℤ
get_tag this = this.tag

unfoldable pub clone : ℕ → RequestMsg → Outcome RequestMsg
unfolding create
clone at this = do
  let tmp = create (pos 0)
  bytes ← read_array (at + sizeof_request) this.payload this.data_size
  done (record {
    header = record (tmp.header) { tag = this.tag; tid = this.tid; msg_size = this.msg_size };
    sender_task_id = this.sender_task_id;
    request_type = this.request_type;
    data_size = this.data_size;
    payload = record { place = Place.owned; items = bytes };
  })

-- The data follow the struct. `this` lies in no segment, so no `inline` data of its are read.
unfoldable pub write_at : RequestMsg → ℕ → Outcome RequestMsg
write_at this addr = do
  bytes ← read_array 0 this.payload this.data_size
  done (record {
    header = record (this.header) { methods = false };
    sender_task_id = this.sender_task_id;
    request_type = this.request_type;
    data_size = this.data_size;
    payload = record { place = Place.inline (addr + sizeof_request); items = bytes };
  })

unfoldable pub rebind : ℕ → RequestMsg → RequestMsg
rebind at msg = record msg {
  header = record (msg.header) { methods = true };
  payload = record (msg.payload) { place = Place.inline (at + sizeof_request) };
}

unfoldable pub get_data : RequestMsg → Array ℕ
get_data this = this.payload

-- The size is added to the message's; data that were set before are leaked.
unfoldable pub set_data : RequestMsg → List ℕ → ℕ → Outcome RequestMsg
set_data this bytes size =
    if leb size (length bytes)
    then done (record this {
      header = record (this.header) { msg_size = (this.msg_size + size) % word };
      data_size = size;
      payload = record { place = Place.owned; items = take size bytes };
    })
    else fault
