-- ===== src/Messages/BarMsg.antt =====
-- TaskSystem/src/Messages/BarMsg/BarMsg.c and its headers: a message with one int.
use francois_gingras_master.Common.{ℕ, ℤ, pos, true, false}
use francois_gingras_master.Messages.Header.{Header}

pub record BarMsg : Type 0 where
  pub header : Header
  pub open header use *
  pub value : ℤ

abbrev pub bar_msg_id : ℕ
bar_msg_id = 1

-- sizeof(struct BarMsg)
abbrev pub sizeof_bar : ℕ
sizeof_bar = 72

-- `memory` is what `malloc` returns: the fields that the constructor does not set.
unfoldable pub create : ℤ → BarMsg → BarMsg
create tag memory = record memory {
  header = record { tag = tag; tid = bar_msg_id; msg_size = sizeof_bar; methods = true };
}

unfoldable pub get_tag : BarMsg → ℤ
get_tag this = this.tag

unfoldable pub clone : BarMsg → BarMsg → BarMsg
unfolding create
clone memory this =
    let tmp = create (pos 0) memory in
    record {
      header = record (tmp.header) { tag = this.tag; tid = this.tid; msg_size = this.msg_size };
      value = this.value;
    }

-- The object that is left at the address. Function pointers are not written.
unfoldable pub write_at : BarMsg → BarMsg
write_at this = record { header = record (this.header) { methods = false }; value = this.value }

unfoldable pub rebind : BarMsg → BarMsg
rebind msg = record msg { header = record (msg.header) { methods = true } }

unfoldable pub get_value : BarMsg → ℤ
get_value this = this.value

unfoldable pub set_value : BarMsg → ℤ → BarMsg
set_value this value = record this { value = value }
