-- ===== src/Messages/RefIntArrayMsg.antt =====
-- TaskSystem/src/Messages/RefIntArrayMsg/RefIntArrayMsg.c and its headers: a reference to ints that
-- sender and receiver share.
use francois_gingras_master.Common.{ℕ, ℤ, true, false, Outcome}
use francois_gingras_master.Messages.Header.{Header, Heap, Ptr, deref}

pub record RefIntArrayMsg : Type 0 where
  pub header : Header
  pub open header use *
  pub size : ℕ
  pub values : Ptr

abbrev pub refintarray_msg_id : ℕ
refintarray_msg_id = 3

-- sizeof(struct RefIntArrayMsg)
abbrev pub sizeof_refintarray : ℕ
sizeof_refintarray = 88

unfoldable pub create : ℤ → RefIntArrayMsg → RefIntArrayMsg
create tag memory = record memory {
  header = record {
    tag = tag;
    tid = refintarray_msg_id;
    msg_size = sizeof_refintarray;
    methods = true;
  };
}

unfoldable pub get_tag : RefIntArrayMsg → ℤ
get_tag this = this.tag

unfoldable pub clone : RefIntArrayMsg → RefIntArrayMsg → RefIntArrayMsg
unfolding create
clone memory this =
    let tmp = create this.tag memory in
    record {
      header = record (tmp.header) { tag = this.tag; tid = this.tid; msg_size = this.msg_size };
      size = this.size;
      values = this.values;
    }

unfoldable pub write_at : RefIntArrayMsg → RefIntArrayMsg
write_at this = record {
  header = record (this.header) { methods = false };
  size = this.size;
  values = this.values;
}

unfoldable pub rebind : RefIntArrayMsg → RefIntArrayMsg
rebind msg = record msg { header = record (msg.header) { methods = true } }

unfoldable pub set_values : RefIntArrayMsg → ℕ → Ptr → RefIntArrayMsg
set_values this count pointer_to_values = record this { size = count; values = pointer_to_values }

unfoldable pub get_size : RefIntArrayMsg → ℕ
get_size this = this.size

unfoldable pub get_value : Heap → RefIntArrayMsg → ℕ → Outcome ℤ
get_value heap this index = deref heap this.values index
