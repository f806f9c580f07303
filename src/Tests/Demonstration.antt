-- ===== src/Tests/Demonstration.antt =====
-- The theorem on the demonstration tasks, and a run of them.
use francois_gingras_master.Common.{
  ◌*◌, none, Outcome, ◌>>=◌, ◌≡◌, refl, true, false, pos, List, [], ◌∷◌, replicate, done, arith,
}
use francois_gingras_master.Queue.{Queue, create_queue, enqueue, dequeue, peek, write_future}
use francois_gingras_master.Queue.Invariant.{straight}
use francois_gingras_master.Queue.Memory.{load, store}
use francois_gingras_master.Messages.BarMsg.{BarMsg}
use francois_gingras_master.Messages.BarMsg
use francois_gingras_master.Messages.TextMsg
use francois_gingras_master.Messages.Message
use francois_gingras_master.Tasks.Demonstration
use francois_gingras_master.Tasks.Spawn.{spawn}
use francois_gingras_master.Messages.TextMsg.{TextMsg}
use francois_gingras_master.Messages.Message.{
  Message, rebinder, build_mapping, bar, text, int_array,
}
use francois_gingras_master.Messages.Message.Law.{IsReady, image}
use francois_gingras_master.System.{
  Shared, Process, create_msg_q, get_next_task_id, send, check_q_and_acquire, acquire_queue,
  get_msg_tag, receive, drop_msg, dequeue_entry,
}
use francois_gingras_master.System.Delivery.{Carries}
use francois_gingras_master.Tasks.Dispatch.{react}
use francois_gingras_master.Tasks.Demonstration.{
  build_text, build_bar, receive_or_return, handle_text, handle_bar, Line, papa_start, hello_world,
  goodbye_world, me_too, Printer, text_line, bar_line, foo_reaction, baz_reaction, start,
}
use francois_gingras_master.Tasks.Demonstration.Prints.{start-prints}
use francois_gingras_master.Tests.Samples.{everywhere, mapped_three}
use francois_gingras_master.Tests.Weather.{bar_block}

-- "Hi" and the number 5, for a task with the id 3.
abbrev greeting : Message
greeting = text (record {
  header = record { tag = pos 0; tid = 2; msg_size = 168; methods = true };
  msg = 72 ∷ 105 ∷ [];
})

abbrev number : Message
number = bar (record {
  header = record { tag = pos 1; tid = 1; msg_size = 72; methods = true };
  value = pos 5;
})

greeting-IsReady : IsReady greeting
greeting-IsReady = record {
  sound = record { classed = refl; sized = omega arith };
  bound = refl;
  small = omega arith;
  owns = omega arith;
}

number-IsReady : IsReady number
number-IsReady = record {
  sound = record { classed = refl; sized = omega arith };
  bound = refl;
  small = omega arith;
  owns = tt;
}

abbrev greetings : Queue Message
greetings = record {
  mem = (56, image greeting 4152) ∷ (224, image number 4320) ∷ [];
  head = 56;
  tail = 296;
  size = 2;
  rollover_position = 4294967295;
}

greetings-Carries : Carries greetings (greeting ∷ number ∷ [])
unfolding load image
greetings-Carries = (
  image greeting 4152 ∷ image number 4320 ∷ [],
  straight refl (omega arith) (omega arith)
      (
        refl,
        record { classed = refl; sized = omega arith },
        (refl, record { classed = refl; sized = omega arith }, refl),
      )
      refl,
  (4152, refl, greeting-IsReady, (4320, refl, number-IsReady, tt)),
)

abbrev printer : Printer
printer = record { task_id = 3; printed = [] }

start-prints_example :
    ((s' : Shared) × (start foo_reaction printer (everywhere greetings) mapped_three 0
        ≡ done (
          record printer { printed = text_line (72 ∷ 105 ∷ []) ∷ bar_line (pos 5) ∷ [] },
          s',
          mapped_three,
        ))
      × Carries (s'.segments 3) [])
    × ((s' : Shared) × (start baz_reaction printer (everywhere greetings) mapped_three 0
          ≡ done (record printer { printed = text_line (72 ∷ 105 ∷ []) ∷ [] }, s', mapped_three))
        × Carries (s'.segments 3) [])
start-prints_example =
    start-prints printer (everywhere greetings) mapped_three 0 4096 greeting number [] refl
      greetings-Carries refl refl

-- A Papa on a new system: what its two Foos and its Baz print.
abbrev text_block : TextMsg
text_block = record {
  header = record { tag = pos 0; tid = 0; msg_size = 0; methods = false };
  msg = [];
}

abbrev new_system : Shared
new_system = record { next_task_id = 2; segments = λ t. create_queue; linked = λ t. false }

abbrev new_process : Process
new_process = record { task_table = replicate 100 none }

abbrev family : Outcome (List Line × List Line × List Line)
family = do
  (foo, foo', baz, s, p) ← papa_start text_block bar_block new_system new_process (λ t. t * 4096)
  (foo1, s1, p1) ← start foo_reaction foo s p 0
  (foo2, s2, p2) ← start foo_reaction foo' s1 p1 0
  (baz1, s3, p3) ← start baz_reaction baz s2 p2 0
  done (foo1.printed, foo2.printed, baz1.printed)

family_run :
    family
    ≡ done (
      text_line hello_world ∷ bar_line (pos 99) ∷ [],
      bar_line (pos 44) ∷ text_line goodbye_world ∷ [],
      text_line me_too ∷ [],
    )
unfolding papa_start Demonstration.create spawn create_msg_q get_next_task_id build_text
    TextMsg.set_msg TextMsg.create TextMsg.write_at TextMsg.rebind TextMsg.clone TextMsg.strcpy_msg
    TextMsg.get_msg build_bar BarMsg.set_value BarMsg.create BarMsg.write_at BarMsg.rebind
    BarMsg.clone BarMsg.get_value send check_q_and_acquire acquire_queue enqueue create_queue
    write_future Message.write_at start receive_or_return get_msg_tag foo_reaction baz_reaction
    handle_text handle_bar react receive drop_msg dequeue_entry dequeue peek rebinder build_mapping
    Message.clone load store
family_run = refl
