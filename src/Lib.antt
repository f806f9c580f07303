-- ===== src/Lib.antt =====
-- TaskSystem: tasks in several processes that talk through message queues in shared memory.
--
-- A task sends messages to other tasks by their number. Every task has a queue, a circular buffer
-- in a segment of shared memory of its own. A sender writes its message into the segment, with the
-- arrays that it owns behind it; the receiver takes it out in its own mapping of the segment, where
-- the pointers inside the message are set again ("rebound"), and clones it. A sample sort and a
-- database are programs of such tasks.
--
-- The parts and their files:
--
-- - Common: the names that all files share. Numbers are the native ℕ; unsigned ints wrap around at
--   2^32, written out. `Outcome` is the result of code that can have undefined behaviour (`fault`),
--   such as overflow of a signed int.
-- - Queue (TaskSystem/src/MsgQueue/CircularMsgQ.c): `create_queue`, `peek`, `is_empty`, `enqueue`
--   and `dequeue` are CreateQueue, Peek, IsEmpty, Enqueue and Dequeue. A call holds the queue's
--   mutex from its first read to its last write, so it is one step. The bytes of a segment are the
--   objects that lie in it with their offsets (Queue/Memory): a write drops each object of which it
--   overwrites a byte. Messages are a parameter (Queue/Api); what the queue needs of them is
--   `IsLawful`. Queue/Invariant says what a queue holds, Queue/Enqueue and Queue/Dequeue what each
--   call does, and Queue/Fifo compares all sequences of calls with a list.
-- - Messages (TaskSystem/src/Messages, TaskSystem/include/TaskSystem/Messages): a file for each of
--   the nine classes, with its struct as a record and `X_create`, clone, writeAt, `X_rebind`, the
--   getters and the setters. Blocks that `malloc` returns are parameters. An array shows with the
--   place it lies in, so that a pointer that leads into another process is a fault where it is
--   read. Messages/Message is the union of the classes with the table of SystemGenerated.c; its
--   children show that all classes are lawful (Law) and what a message is after its way (Transit).
--   Messages/Build is about constructors and setters.
-- - System (TaskSystem/src/System/System.c): `send`, `receive`, `drop_msg`, `get_msg_tag`,
--   `create_msg_q`, `get_next_task_id` and `message_immediate`. `Shared` is what all processes see,
--   `Process` the TaskTable that each has. System/Delivery describes the calls by the messages that
--   are on their way, System/History sequences of calls by any processes. System/Repository is the
--   names of tasks. System/Waking is message_notify and the loop that wakes sleepers, which is a
--   run over the states that its rounds find; System/Lifecycle is System_create, System_acquire and
--   destroy, with the answers of the operating system as a parameter.
-- - TimeHelper (TaskSystem/src/TimeHelper.c): differences and sums of times.
-- - Tasks (TaskSystem/src/Tasks, TaskSystem/include/TaskSystem/Tasks): Tasks/Dispatch is the
--   `receive` of all tasks, with the switch over the tag as a function into `Reaction`; Tasks/Spawn
--   is what all constructors do. The database (DatabaseTask.c) is a state machine on its requests
--   (Requests, Answers) and a loop over the system (Loop); the client (ClientTask.c) builds
--   requests, and its Loop has the whole exchange. The weather station keeps its subscribers and
--   broadcasts (WeatherStationTask, WeatherClientTask). Demonstration is FooTask.c, BazTask.c and
--   PapaTask.c. The sorting tasks are modelled twice: as computations on the contents of arrays
--   (BucketTask, SampleSortTask, with the comparison for the C library's qsort in Qsort, whose
--   promise is a hypothesis), and as handlers and messages over a heap of blocks that messages
--   refer to (their Receive, Rounds, RoundOne, RoundTwo and RoundThree).
-- - Tasks/SampleSortTask/Threads: `start` of SampleSortTask.c (`root_start`) and of BucketTask.c
--   (`bucket_start`) as lists of steps, and the threads of a whole sort as one state: the heap, the
--   segments, the TaskTable of their process, and for each thread its `this`, its local variables
--   and the steps that it has left. A schedule is a list of turns. message_notify is a step that
--   the thread takes again while its queue is empty; that it sleeps then, and is woken, is
--   System/Waking. `begin` is what the root does before its first send. For a column the root reads
--   arrays on the stacks of the buckets, which is a fault once one of them has returned (`dangles`;
--   Races says when it comes to that, Unhurried, Columns and Calm are about schedules on which the root is
--   not interrupted). Stages, Setting and Plan say what holds between two turns, Counting, Start
--   and Launch are about the beginning, Brings, Frame, Picks, Takes and Change about what a turn
--   takes out of a queue and what it leaves alone; Builds, Posts, SameRoot, Replied, Replies,
--   Collecting, Done, Finishing and Waits are about the steps, Root, Buckets and Moves about the
--   turns, Progress about the stages of the root, Turns about who can take a step, Runs, Ends and
--   Complete about schedules. Queue/Lane and System/Delivery/Lane follow how much was written into
--   a segment.
-- - Tests: the theorems at concrete inputs.
--
-- There is no fuel: every loop is over a list or a number. A loop that may not end runs over a list
-- of what it meets (the numbers that random() gives, the states that the waking loop finds, the
-- turns of the threads) or a number of rounds; waiting for a message is a result (`waits`). A
-- sample sort is taken to have K buckets with K at most the number of ids that are left, and 21 * K
-- + 1 rounds of turns: every step of a thread that is not spent waiting is counted, 12 for a bucket
-- and 9 for the root with each bucket, and one for the root's own. The bound on K keeps the
-- messages of a sort within the 1000000 bytes of a segment.
--
-- Not modelled: failures of the operating system except in the creation of the system, printing and
-- timing (what the weather client and the demonstration tasks print is part of their state),
-- `start` of the weather tasks as one sequence, the two messages that tell the root of a sort its K
-- and its data, a queue of which other tasks make use during a sort, freeing of memory, the
-- third-party library and the textbook linked list in nano_benchmarking and exploration, and the
-- small programs there that try out calls of the operating system. `receive` clones the message
-- after the queue's mutex was released; it is one step here, so a sender that overwrites the
-- message in between is not shown.
pub mod Common
pub mod Queue
pub mod Messages
pub mod System
pub mod TimeHelper
pub mod Tasks
pub mod Tests
