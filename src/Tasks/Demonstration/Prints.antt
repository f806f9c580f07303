-- ===== src/Tasks/Demonstration/Prints.antt =====
-- What a Foo and a Baz print.
use francois_gingras_master.Common.{
  ℕ, ◌≡◌, refl, append_assoc, append-nil, ℤ, pos, List, [], ◌∷◌, ◌++◌, done,
}
use francois_gingras_master.Messages.BarMsg
use francois_gingras_master.Messages.TextMsg
use francois_gingras_master.Messages.Message.{Message, bar, text}
use francois_gingras_master.System.{Shared, Process, with_segment}
use francois_gingras_master.System.Delivery.{
  Carries, IsMapped, receive-Carries, get_msg_tag-Carries, segments-with_segment_self,
}
use francois_gingras_master.System.Delivery.Drop.{drop_msg-Carries}
use francois_gingras_master.Tasks.Dispatch.{Reaction, served, react}
use francois_gingras_master.Tasks.Demonstration.{
  Line, text_line, bar_line, Printer, foo_reaction, baz_reaction, handle_text, handle_bar,
  receive_or_return, start, after_call,
}

-- A text under the tag 0 or a bar message under the tag 1.
abbrev pub IsTagged : Message → Type 0
IsTagged (text m) = m.tag ≡ pos 0
IsTagged (bar m) = m.tag ≡ pos 1
IsTagged _ = ⊥

abbrev pub foo_lines : Message → List Line
foo_lines (text m) = text_line m.msg ∷ []
foo_lines (bar m) = bar_line m.value ∷ []
foo_lines _ = []

abbrev pub baz_lines : Message → List Line
baz_lines (text m) = text_line m.msg ∷ []
baz_lines _ = []

abbrev prints : Printer → List Line → Printer
prints this lines = record this { printed = this.printed ++ lines }

-- One call takes the oldest message and prints its lines.
abbrev Prints : (ℤ → Reaction Printer) → (Message → List Line) → Type 0
Prints reaction lines =
    (this : Printer) (s : Shared) (p : Process) (at base : ℕ) (n : Message) (ns : List Message)
    → IsMapped p this.task_id base
    → Carries (s.segments this.task_id) (n ∷ ns)
    → IsTagged n
    → (s' : Shared) × (receive_or_return reaction this s p at
        ≡ done (served (prints this (lines n)) s' p))
      × Carries (s'.segments this.task_id) ns

foo-Prints : Prints foo_reaction foo_lines
unfolding receive_or_return foo_reaction react handle_text handle_bar TextMsg.get_msg
    BarMsg.get_value
foo-Prints this s p at base (text m) ns mapped k e =
    let (q, run, left) = receive-Carries s p base this.task_id (text m) ns mapped k in
    (
      with_segment s this.task_id q,
      rw (get_msg_tag-Carries s p at base this.task_id (text m ∷ ns) mapped k, e, run) refl,
      rw (segments-with_segment_self s this.task_id q) left,
    )
foo-Prints this s p at base (bar m) ns mapped k e =
    let (q, run, left) = receive-Carries s p base this.task_id (bar m) ns mapped k in
    (
      with_segment s this.task_id q,
      rw (get_msg_tag-Carries s p at base this.task_id (bar m ∷ ns) mapped k, e, run) refl,
      rw (segments-with_segment_self s this.task_id q) left,
    )
foo-Prints this s p at base _ ns mapped k e = absurd e

baz-Prints : Prints baz_reaction baz_lines
unfolding receive_or_return baz_reaction react handle_text TextMsg.get_msg
baz-Prints this s p at base (text m) ns mapped k e =
    let (q, run, left) = receive-Carries s p base this.task_id (text m) ns mapped k in
    (
      with_segment s this.task_id q,
      rw (get_msg_tag-Carries s p at base this.task_id (text m ∷ ns) mapped k, e, run) refl,
      rw (segments-with_segment_self s this.task_id q) left,
    )
baz-Prints this s p at base (bar m) ns mapped k e =
    let (q, run, left) = drop_msg-Carries s p at base this.task_id (bar m ∷ ns) mapped k in
    (
      with_segment s this.task_id q,
      rw
          (
            get_msg_tag-Carries s p at base this.task_id (bar m ∷ ns) mapped k,
            e,
            run,
            append-nil this.printed,
          )
          refl,
      rw (segments-with_segment_self s this.task_id q) left,
    )
baz-Prints this s p at base _ ns mapped k e = absurd e

start-Prints :
    (reaction : ℤ → Reaction Printer) (lines : Message → List Line)
    → Prints reaction lines
    → (this : Printer) (s : Shared) (p : Process) (at base : ℕ) (n n' : Message) (ns : List Message)
    → IsMapped p this.task_id base
    → Carries (s.segments this.task_id) (n ∷ n' ∷ ns)
    → IsTagged n
    → IsTagged n'
    → (s' : Shared) × (start reaction this s p at ≡ done (prints this (lines n ++ lines n'), s', p))
      × Carries (s'.segments this.task_id) ns
unfolding start after_call
start-Prints reaction lines h this s p at base n n' ns mapped k e e' =
    let (s1, run, k1) = h this s p at base n (n' ∷ ns) mapped k e in
    let (s2, run', k2) = h (prints this (lines n)) s1 p at base n' ns mapped k1 e' in
    (s2, rw (run, run', append_assoc this.printed (lines n) (lines n')) refl, k2)

-- A Foo that has mapped its queue and starts with two messages on their way to it, texts under
-- the tag 0 or bar messages under the tag 1, prints both, in the order of the sends, and leaves
-- what is behind them. A Baz in its place prints the texts among them and drops the bar
-- messages.
pub start-prints :
    (this : Printer) (s : Shared) (p : Process) (at base : ℕ) (n n' : Message) (ns : List Message)
    → IsMapped p this.task_id base
    → Carries (s.segments this.task_id) (n ∷ n' ∷ ns)
    → IsTagged n
    → IsTagged n'
    → ((s' : Shared) × (start foo_reaction this s p at
          ≡ done (record this { printed = this.printed ++ (foo_lines n ++ foo_lines n') }, s', p))
        × Carries (s'.segments this.task_id) ns)
      × ((s' : Shared) × (start baz_reaction this s p at
            ≡ done (record this { printed = this.printed ++ (baz_lines n ++ baz_lines n') }, s', p))
          × Carries (s'.segments this.task_id) ns)
start-prints this s p at base n n' ns mapped k e e' = (
  start-Prints foo_reaction foo_lines foo-Prints this s p at base n n' ns mapped k e e',
  start-Prints baz_reaction baz_lines baz-Prints this s p at base n n' ns mapped k e e',
)
