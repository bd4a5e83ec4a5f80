-- ===== src/Lib.antt =====
-- Verification of the CS 452 kernel: the containers of its library, the kernel proper, and the train
-- control above it.
--
-- The parts, and the files that model them (the paths are of the repository's root):
--   Deque        src/deque.c and include/deque.h, the ring buffer of every server. Ring has the
--                arithmetic of its indices, Inv the invariant, Spec the bounded list that it promises
--                to be, Refine and Run the refinement, Bounded a deque by its list and its room, Iterate
--                the iterators, Move deque_move.
--   Memory       memcpy of src/util.c, and the stores through the tasks' pointers.
--   Text         the rest of src/util.c: Strings has the routines on strings by the texts of arrays,
--                Numbers the conversions, Scale and Digits their two loops.
--   ClockQueue   src/clock-queue.c, the tasks that wait for a tick: Order has the sorted lists,
--                Insert the walk to a place, Holds the invariant, Add and Get the operations.
--   ClockServer  src/clock-server.c and the calls of src/clock.c.
--   NameServer   src/nameserver.c: Walk has the walks along a chain, Chains the invariant of the table,
--                Register and Add a registration, Spec the contract, Serve and Run the server, Client
--                the two calls.
--   Uart         the messages of include/uart-server.h and the calls of src/uart-server.c.
--   ConsoleServer src/console-server.c.
--   MarklinServer src/marklin-server.c: Spec has the contract, Steady what is always so, Laws the sending,
--                Branches and Handle the messages.
--   PriorityQueue src/priority-queue.c, a binary heap. Order has the order of the heap, Nodes its nodes
--                as a multiset, Down and Up the two moves, Laws and Decrease the operations.
--   Time         src/time.c, ticks as minutes, seconds and tenths.
--   Kernel/Task            task_t of kernel/include/task-state.h and the priorities of include/task.h.
--   Kernel/Links           what the intrusive lists of the kernel share.
--   Kernel/TaskQueue       kernel/src/task-queue.c, one FIFO for each priority, and the task ids.
--   Kernel/EventQueue      kernel/src/event-queue.c, the tasks that wait for an interrupt.
--   Kernel/StackAlloc      kernel/src/stack-alloc.c.
--   Kernel/TaskAlloc       kernel/src/task-alloc.c, slabs of descriptors with a free list.
--   Kernel/Stopwatch       kernel/src/stopwatch.c.
--   Kernel/State           what task_svc_handle works on, as one record.
--   Kernel/Message         its calls SYS_MSG_SEND, SYS_MSG_RCV and SYS_MSG_RPLY.
--   Kernel/Syscall         its other calls and the dispatch, task_init and task_dealloc of
--                          kernel/src/task-state.c, trigger_interrupt of kernel/src/interrupts.c.
--   Kernel/Interrupts      handle_interrupt of kernel/src/interrupts.c.
--   Kernel/Main            one round of the loop of kernel_main, kernel/src/kernel.c; Fair has a
--                          round in which the task yields.
--   Track/Speed            track-control/src/speed.c, the trains' numbers and speeds.
--   Track/Messages         the messages of track-control/include/track-server.h.
--   Track/Server           track-control/src/track-server.c, the server that locks the segments of the
--                          track; Table has its state and its locks, Start the start and the
--                          notifier of the timeouts. Locks has what the lock routines do, Safety what
--                          no message does, Retry what a free does to a train that waits for one of
--                          two requests.
--   Track/Locking          track-control/src/track-segment-locking.c, the calls of that server. Copy has
--                          the copy of a queue into a message, Serve the calls with their server, Timeout
--                          the end of the timeout of a refused request.
--   Track/Actions          the queue of actions of track-control/src/routing.c: Calls has several calls
--                          of a deque at once, Queue the list of actions.
--   Track/Parsing          track-control/src/parsing.c, the commands of the console: Numbers, Path and
--                          Command have the code, Digits, Value and Laws the number parsers.
--   Track/SensorQueue      track-control/src/sensor-queue.c, the tasks that wait for a sensor.
--   Base         Boolean tests, arrays, bit masks, lists, and the outcome of a kernel operation.
-- A function of C keeps its name. Tests modules hold concrete runs.
--
-- State. A task_t pointer is the number of its descriptor, NULL is none, and the descriptors are one
-- function from the number, which each operation takes and returns; so all parts see the same
-- descriptor, as in C. A C array is a function of its index. A register, a deque value and an address
-- are bit patterns, the words of C wrap where the source lets them; the deque's indices stay so small
-- that none does, which its invariant shows. The time at a call is an argument.
--
-- The track server is one function from its state and a message to its state, with the replies that it
-- sends as a list; a message that is not filled in is the parameter `junk`. Its clients take the Send
-- of the kernel as a parameter, which Track/Locking/Serve makes the server itself. The numbers of the
-- segments are not bounded there, so a lock outside the array is one more cell.
--
-- Faults. A read of a field through NULL, a failed kassert or uassert, a loop that does not end and an
-- index outside an array are the values null_deref, panic, hang and out_of_bounds of the result. Loops
-- over a list take fuel: the length of the longest list and one more is enough, as the theorems say
-- that have it as a hypothesis. task_queue_kill_children takes a second fuel for the depth of its
-- recursion. The heap takes one more than its size, or than the index that moves up. The parser's
-- loops go over the size of the input, since each round takes a character.
--
-- The walks of the name server take 257, since the table has 256 entries, and the numerals 33 and 34
-- rounds, since a word has 32 binary digits. The servers' loops over waiting tasks take one more than the
-- room of the deque.
--
-- The servers that run above the kernel are functions from a state and a message to the state and the
-- effects of one round of their loop, with the times that they read as arguments; their clients take the
-- Send of the kernel as a parameter. A string of C is the array that holds it, and its text the bytes
-- before the first zero; an array has its size, and a byte written past it is out_of_bounds.
--
-- Not modelled: the assembly of the context switch and of the boot, the registers of the devices, the
-- display, the tables of the track, the notifiers of the servers, Printf, the user programs, the path
-- finding and the control of the trains, and the start of the kernel before its loop. The context
-- switch is a parameter of a round of the loop. N_SEN_PER_MOD, which no file defines, is a parameter of
-- the parser.
pub mod Base
pub mod Memory
pub mod Deque
pub mod ClockQueue
pub mod ClockServer
pub mod ConsoleServer
pub mod MarklinServer
pub mod NameServer
pub mod PriorityQueue
pub mod Text
pub mod Time
pub mod Track
pub mod Uart
pub mod Kernel
