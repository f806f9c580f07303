-- ===== src/Messages/RefTwoDimIntArrayMsg.antt =====
-- TaskSystem/src/Messages/RefTwoDimIntArrayMsg/RefTwoDimIntArrayMsg.c and its headers: references to
-- a row of counts and to as many rows of ints.
use francois_gingras_master.Common.{ℕ, ℤ, true, false, List}
use francois_gingras_master.Messages.Header.{Header, Ptr}

-- `values` is the array of pointers behind the `int**`.
pub record RefTwoDimIntArrayMsg : Type 0 where
  pub header : Header
  pub open header use *
  pub size : ℕ
  pub counts : Ptr
  pub values : List Ptr

abbrev pub reftwodimintarray_msg_id : ℕ
reftwodimintarray_msg_id = 7

-- sizeof(struct RefTwoDimIntArrayMsg)
abbrev pub sizeof_reftwodimintarray : ℕ
sizeof_reftwodimintarray = 72

-- The header of a new object.
abbrev pub created : ℤ → Header
created tag = record {
  tag = tag;
  tid = reftwodimintarray_msg_id;
  msg_size = sizeof_reftwodimintarray;
  methods = true;
}

unfoldable pub create : ℤ → RefTwoDimIntArrayMsg → RefTwoDimIntArrayMsg
create tag memory = record memory { header = created tag }

unfoldable pub get_tag : RefTwoDimIntArrayMsg → ℤ
get_tag this = this.tag

unfoldable pub clone : RefTwoDimIntArrayMsg → RefTwoDimIntArrayMsg → RefTwoDimIntArrayMsg
unfolding create
clone memory this =
    let tmp = create this.tag memory in
    record {
      header = record (tmp.header) { tag = this.tag; tid = this.tid; msg_size = this.msg_size };
      size = this.size;
      counts = this.counts;
      values = this.values;
    }

unfoldable pub write_at : RefTwoDimIntArrayMsg → RefTwoDimIntArrayMsg
write_at this = record {
  header = record (this.header) { methods = false };
  size = this.size;
  counts = this.counts;
  values = this.values;
}

unfoldable pub rebind : RefTwoDimIntArrayMsg → RefTwoDimIntArrayMsg
rebind msg = record msg { header = record (msg.header) { methods = true } }
