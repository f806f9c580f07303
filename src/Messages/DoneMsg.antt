-- ===== src/Messages/DoneMsg.antt =====
-- TaskSystem/src/Messages/DoneMsg/DoneMsg.c and its headers: a signal.
use francois_gingras_master.Common.{ℕ, ℤ, true, false}
use francois_gingras_master.Messages.Header.{Header}

pub record DoneMsg : Type 0 where
  pub header : Header
  pub open header use *
  pub success : ℤ

abbrev pub done_msg_id : ℕ
done_msg_id = 6

-- sizeof(struct DoneMsg)
abbrev pub sizeof_done : ℕ
sizeof_done = 56

unfoldable pub create : ℤ → DoneMsg → DoneMsg
create tag memory = record memory {
  header = record { tag = tag; tid = done_msg_id; msg_size = sizeof_done; methods = true };
}

unfoldable pub get_tag : DoneMsg → ℤ
get_tag this = this.tag

unfoldable pub clone : DoneMsg → DoneMsg → DoneMsg
unfolding create
clone memory this =
    let tmp = create this.tag memory in
    record {
      header = record (tmp.header) { tag = this.tag; tid = this.tid; msg_size = this.msg_size };
      success = this.success;
    }

unfoldable pub write_at : DoneMsg → DoneMsg
write_at this = record { header = record (this.header) { methods = false }; success = this.success }

unfoldable pub rebind : DoneMsg → DoneMsg
rebind msg = record msg { header = record (msg.header) { methods = true } }
