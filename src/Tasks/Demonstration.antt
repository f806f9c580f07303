-- ===== src/Tasks/Demonstration.antt =====
-- The demonstration tasks of TaskSystem/src/Tasks: FooTask/FooTask.c and BazTask/BazTask.c, which
-- print what they receive, and PapaTask/PapaTask.c, which creates them and sends them messages.
pub mod Prints
use francois_gingras_master.Common.{
  ℕ, zero, suc, ◌≡◌, refl, ◌∙◌, true, false, ℤ, pos, negsuc, List, [], ◌∷◌, ◌++◌, Outcome, done,
  fault, ◌>>=◌, ◌==ℤ◌, if◌then◌else◌,
}
use francois_gingras_master.Messages.BarMsg.{BarMsg}
use francois_gingras_master.Messages.BarMsg
use francois_gingras_master.Messages.TextMsg.{TextMsg}
use francois_gingras_master.Messages.TextMsg
use francois_gingras_master.Messages.Message.{Message, bar, text}
use francois_gingras_master.System.{
  Shared, Process, with_segment, send, receive, drop_msg, get_msg_tag,
}
use francois_gingras_master.System.Delivery.{
  Carries, IsMapped, receive-Carries, get_msg_tag-Carries, segments-with_segment_self,
}
use francois_gingras_master.System.Delivery.Drop.{drop_msg-Carries}
use francois_gingras_master.Tasks.Dispatch.{
  Reaction, handles, leaves, drops, Received, waits, served, react,
}
use francois_gingras_master.Tasks.Spawn.{spawn}

-- A line that a task prints, without the task's id in it.
pub data Line : Type 0 where
  text_line : List ℕ → Line
  bar_line : ℤ → Line

-- A Foo, a Baz or a Papa keeps its id only; `printed` is what it has written.
pub record Printer : Type 0 where
  pub task_id : ℕ
  pub printed : List Line

-- FooTask_create, BazTask_create and PapaTask_create.
unfoldable pub create : Shared → Process → ℕ → Outcome (Printer × Shared × Process)
create s p at = do (id, s', p') ← spawn s p at; done (record { task_id = id; printed = [] }, s', p')

-- The handlers cast the message; one of another class is a fault.
unfoldable pub handle_text : Printer → Message → Outcome Printer
handle_text this (text m) =
    done (record this { printed = this.printed ++ (text_line (TextMsg.get_msg m) ∷ []) })
handle_text this _ = fault

unfoldable pub handle_bar : Printer → Message → Outcome Printer
handle_bar this (bar m) =
    done (record this { printed = this.printed ++ (bar_line (BarMsg.get_value m) ∷ []) })
handle_bar this _ = fault

unfoldable pub foo_reaction : ℤ → Reaction Printer
foo_reaction tag =
    if tag ==ℤ pos 0
    then handles handle_text
    else if tag ==ℤ pos 1
    then handles handle_bar
    else drops

-- A Baz drops what is no text.
unfoldable pub baz_reaction : ℤ → Reaction Printer
baz_reaction tag = if tag ==ℤ pos 0 then handles handle_text else drops

-- Their `receive` does not wait: with no message it returns.
unfoldable pub receive_or_return :
    (ℤ → Reaction Printer) → Printer → Shared → Process → ℕ → Outcome (Received Printer)
receive_or_return reaction this s p at = do
  (tag, p') ← get_msg_tag s p at this.task_id
  if tag ==ℤ negsuc 0 then done (waits p') else react (reaction tag) this s p' at this.task_id

-- What the next call finds.
after_call : Printer → Shared → Received Printer → Printer × Shared × Process
after_call this s (waits p) = (this, s, p)
after_call this s (served this' s' p) = (this', s', p)

-- `start` of a Foo and of a Baz: two calls of `receive`.
unfoldable pub start :
    (ℤ → Reaction Printer) → Printer → Shared → Process → ℕ → Outcome (Printer × Shared × Process)
unfolding after_call
start reaction this s p at = do
  first ← receive_or_return reaction this s p at
  let (this', s', p') = after_call this s first
  second ← receive_or_return reaction this' s' p' at
  done (after_call this' s' second)

-- A text and a bar message as Papa builds them. `memory` is the block that the constructor allocates.
unfoldable pub build_text : List ℕ → TextMsg → Outcome TextMsg
build_text words memory = TextMsg.set_msg (TextMsg.create (pos 0) memory) words

unfoldable pub build_bar : ℤ → BarMsg → BarMsg
build_bar value memory = BarMsg.set_value (BarMsg.create (pos 1) memory) value

-- "Hello World", "Goodbye World" and "me too"
abbrev pub hello_world : List ℕ
hello_world = 72 ∷ 101 ∷ 108 ∷ 108 ∷ 111 ∷ 32 ∷ 87 ∷ 111 ∷ 114 ∷ 108 ∷ 100 ∷ []

abbrev pub goodbye_world : List ℕ
goodbye_world = 71 ∷ 111 ∷ 111 ∷ 100 ∷ 98 ∷ 121 ∷ 101 ∷ 32 ∷ 87 ∷ 111 ∷ 114 ∷ 108 ∷ 100 ∷ []

abbrev pub me_too : List ℕ
me_too = 109 ∷ 101 ∷ 32 ∷ 116 ∷ 111 ∷ 111 ∷ []

-- `start` of a Papa: three children, and two messages for each. The result of a `send` is not tested.
unfoldable pub papa_start :
    TextMsg
    → BarMsg
    → Shared
    → Process
    → (ℕ → ℕ)
    → Outcome (Printer × Printer × Printer × Shared × Process)
papa_start memory memory' s p at = do
  (child1, s1, p1) ← create s p (at s.next_task_id)
  (child2, s2, p2) ← create s1 p1 (at s1.next_task_id)
  (child3, s3, p3) ← create s2 p2 (at s2.next_task_id)
  text1 ← build_text hello_world memory
  (_, _, s4, p4) ← send s3 p3 (at child1.task_id) (text text1) child1.task_id
  (_, _, s5, p5) ← send s4 p4 (at child2.task_id) (bar (build_bar (pos 44) memory')) child2.task_id
  (_, _, s6, p6) ← send s5 p5 (at child1.task_id) (bar (build_bar (pos 99) memory')) child1.task_id
  text2 ← build_text goodbye_world memory
  (_, _, s7, p7) ← send s6 p6 (at child2.task_id) (text text2) child2.task_id
  (_, _, s8, p8) ← send s7 p7 (at child3.task_id) (bar (build_bar (pos 11) memory')) child3.task_id
  text3 ← build_text me_too memory
  (_, _, s9, p9) ← send s8 p8 (at child3.task_id) (text text3) child3.task_id
  done (child1, child2, child3, s9, p9)
