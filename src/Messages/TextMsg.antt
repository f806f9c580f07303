-- ===== src/Messages/TextMsg.antt =====
-- TaskSystem/src/Messages/TextMsg/TextMsg.c and its headers: a message with a text of at most 99
-- bytes.
use francois_gingras_master.Common.{
  ℕ, ℤ, pos, true, false, List, Outcome, done, fault, ◌>>=◌, length, ltb, if◌then◌else◌,
}
use francois_gingras_master.Messages.Header.{Header}

-- `msg` is the text up to its NUL byte; an array with no NUL byte shows as a longer text.
pub record TextMsg : Type 0 where
  pub header : Header
  pub open header use *
  pub msg : List ℕ

abbrev pub text_msg_id : ℕ
text_msg_id = 2

-- sizeof(struct TextMsg)
abbrev pub sizeof_text : ℕ
sizeof_text = 168

-- `strcpy` into the field `char msg[100]`: the NUL byte must fit too.
unfoldable pub strcpy_msg : List ℕ → Outcome (List ℕ)
strcpy_msg text = if ltb (length text) 100 then done text else fault

unfoldable pub create : ℤ → TextMsg → TextMsg
create tag memory = record memory {
  header = record { tag = tag; tid = text_msg_id; msg_size = sizeof_text; methods = true };
}

unfoldable pub get_tag : TextMsg → ℤ
get_tag this = this.tag

unfoldable pub clone : TextMsg → TextMsg → Outcome TextMsg
unfolding create strcpy_msg
clone memory this = do
  let tmp = create (pos 0) memory
  text ← strcpy_msg this.msg
  done (record {
    header = record (tmp.header) { tag = this.tag; tid = this.tid; msg_size = this.msg_size };
    msg = text;
  })

unfoldable pub write_at : TextMsg → Outcome TextMsg
unfolding strcpy_msg
write_at this = do
  text ← strcpy_msg this.msg
  done (record { header = record (this.header) { methods = false }; msg = text })

unfoldable pub rebind : TextMsg → TextMsg
rebind msg = record msg { header = record (msg.header) { methods = true } }

unfoldable pub get_msg : TextMsg → List ℕ
get_msg this = this.msg

unfoldable pub set_msg : TextMsg → List ℕ → Outcome TextMsg
unfolding strcpy_msg
set_msg this text = do copied ← strcpy_msg text; done (record this { msg = copied })
