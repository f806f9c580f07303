-- ===== src/Messages/IntArrayMsg.antt =====
-- TaskSystem/src/Messages/IntArrayMsg/IntArrayMsg.c and its headers: a message with an array of
-- ints, copied with it.
use francois_gingras_master.Common.{
  ℕ, ◌+◌, ◌*◌, ◌%◌, ℤ, true, false, List, Outcome, done, fault, or_fault, ◌>>=◌, length, take,
  get_elem?, leb, if◌then◌else◌, word,
}
use francois_gingras_master.Messages.Header.{Header, Array, Place, read_array}

pub record IntArrayMsg : Type 0 where
  pub header : Header
  pub open header use *
  pub size : ℕ
  pub values : Array ℤ

abbrev pub intarray_msg_id : ℕ
intarray_msg_id = 5

-- sizeof(struct IntArrayMsg)
abbrev pub sizeof_intarray : ℕ
sizeof_intarray = 88

unfoldable pub create : ℤ → IntArrayMsg → IntArrayMsg
create tag memory = record memory {
  header = record { tag = tag; tid = intarray_msg_id; msg_size = sizeof_intarray; methods = true };
}

unfoldable pub get_tag : IntArrayMsg → ℤ
get_tag this = this.tag

-- `at` is the address of the object that is copied.
unfoldable pub clone : IntArrayMsg → ℕ → IntArrayMsg → Outcome IntArrayMsg
unfolding create
clone memory at this = do
  let tmp = create this.tag memory
  items ← read_array (at + sizeof_intarray) this.values this.size
  done (record {
    header = record (tmp.header) { tag = this.tag; tid = this.tid; msg_size = this.msg_size };
    size = this.size;
    values = record { place = Place.owned; items = items };
  })

-- The array follows the struct. `this` lies in no segment, so no `inline` array of its is read.
unfoldable pub write_at : IntArrayMsg → ℕ → Outcome IntArrayMsg
write_at this addr = do
  items ← read_array 0 this.values this.size
  done (record {
    header = record (this.header) { methods = false };
    size = this.size;
    values = record { place = Place.inline (addr + sizeof_intarray); items = items };
  })

unfoldable pub rebind : ℕ → IntArrayMsg → IntArrayMsg
rebind at msg = record msg {
  header = record (msg.header) { methods = true };
  values = record (msg.values) { place = Place.inline (at + sizeof_intarray) };
}

-- `val` is the caller's array; a shorter one than `count` is read past its end.
unfoldable pub set_values : IntArrayMsg → ℕ → List ℤ → Outcome IntArrayMsg
set_values this count val =
    if leb count (length val)
    then done (record this {
      header = record (this.header) { msg_size = (sizeof_intarray + count * 4) % word };
      size = count;
      values = record { place = Place.owned; items = take count val };
    })
    else fault

unfoldable pub get_size : IntArrayMsg → ℕ
get_size this = this.size

unfoldable pub get_value : ℕ → IntArrayMsg → ℕ → Outcome ℤ
get_value at this index = do
  items ← read_array (at + sizeof_intarray) this.values (index + 1)
  or_fault (get_elem? items index)
