-- ===== src/Messages/ResponseMsg.antt =====
-- TaskSystem/src/Messages/ResponseMsg/ResponseMsg.c and its headers: a response of the database.
use francois_gingras_master.Common.{
  ℕ, ◌+◌, ◌%◌, ℤ, pos, negsuc, true, false, List, Outcome, done, fault, ◌>>=◌, length, take, leb,
  if◌then◌else◌, word,
}
use francois_gingras_master.Messages.Header.{Header, Array, Place, null_array, read_array}

-- The data are bytes.
pub record ResponseMsg : Type 0 where
  pub header : Header
  pub open header use *
  pub code : ℤ
  pub data_size : ℕ
  pub payload : Array ℕ

abbrev pub response_msg_id : ℕ
response_msg_id = 9

-- sizeof(struct ResponseMsg)
abbrev pub sizeof_response : ℕ
sizeof_response = 80

-- Every field is set, so nothing of the allocated block is left.
unfoldable pub create : ℤ → ResponseMsg
create tag = record {
  header = record { tag = tag; tid = response_msg_id; msg_size = sizeof_response; methods = true };
  data_size = 0;
  payload = null_array;
  code = negsuc 0;
}

unfoldable pub get_tag : ResponseMsg → ℤ
get_tag this = this.tag

unfoldable pub clone : ℕ → ResponseMsg → Outcome ResponseMsg
unfolding create
clone at this = do
  let tmp = create (pos 0)
  bytes ← read_array (at + sizeof_response) this.payload this.data_size
  done (record {
    header = record (tmp.header) { tag = this.tag; tid = this.tid; msg_size = this.msg_size };
    code = this.code;
    data_size = this.data_size;
    payload = record { place = Place.owned; items = bytes };
  })

-- The data follow the struct. `this` lies in no segment, so no `inline` data of its are read.
unfoldable pub write_at : ResponseMsg → ℕ → Outcome ResponseMsg
write_at this addr = do
  bytes ← read_array 0 this.payload this.data_size
  done (record {
    header = record (this.header) { methods = false };
    code = this.code;
    data_size = this.data_size;
    payload = record { place = Place.inline (addr + sizeof_response); items = bytes };
  })

unfoldable pub rebind : ℕ → ResponseMsg → ResponseMsg
rebind at msg = record msg {
  header = record (msg.header) { methods = true };
  payload = record (msg.payload) { place = Place.inline (at + sizeof_response) };
}

unfoldable pub get_data : ResponseMsg → Array ℕ
get_data this = this.payload

-- The size is added to the message's; data that were set before are leaked.
unfoldable pub set_data : ResponseMsg → List ℕ → ℕ → Outcome ResponseMsg
set_data this bytes size =
    if leb size (length bytes)
    then done (record this {
      header = record (this.header) { msg_size = (this.msg_size + size) % word };
      data_size = size;
      payload = record { place = Place.owned; items = take size bytes };
    })
    else fault
