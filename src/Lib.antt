-- ===== src/Lib.antt =====
-- xyco is an asynchronous runtime on C++ coroutines: futures that are polled and woken, a runtime
-- of worker threads that polls them, registries that turn readiness of files, sockets and timers
-- into wake-ups, and on top of these channels, buffered input and output, and timers. A future is
-- named by a number here; "to register a future" is the call of register_future that puts it on the
-- runtime's queue again.
--
-- Common holds the shared tests, list operations and integers, with Poll of
-- include/xyco/runtime/future.ccm. Utils/Error is include/xyco/utils/error.ccm with
-- src/utils/error.cc: errors as values.
--
-- Runtime/Future is include/xyco/runtime/future.ccm, with the destructor of Future<void>: a store
-- of Future objects and coroutine frames, on which `await_suspend`, `await_resume`, `cancel`,
-- `move_assign` and the others act as the functions of these names do. `cancel` calls itself along
-- the chain of awaited coroutines; its depth is bounded by a number, and the length of the chain is
-- enough. Runtime/Future/Void is the rest of src/runtime/future.cc, on the same store: the promise
-- of Future<void>, which may outlive its future.
--
-- Task/Join and Task/Select are include/xyco/task/join.ccm and include/xyco/task/select.ccm: `run`
-- makes the steps in which branches end, in any order, and counts the calls of register_future.
-- Task/Blocking is include/xyco/task/registry.ccm with src/task/registry.cc and
-- include/xyco/task/blocking_task.ccm.
--
-- Fs/Options is OpenOptionsBase of include/xyco/fs/file_common.ccm, with open of
-- src/fs/epoll/file.cc up to its system call.
--
-- Sync/Oneshot is include/xyco/sync/oneshot.ccm: `send`, `receive`, `close_sender` and
-- `close_receiver` are Sender::send, Receiver::receive and the two close functions. Sync/Mpsc is
-- include/xyco/sync/mpsc.ccm: `poll_send` and `poll_receive` are the poll functions of the futures
-- that send and receive await, `count_sender`, followed by `close_sender` or `leave_sender`, is the
-- destructor of a sender, in which the count is read before the state is set, `drop_receiver` that
-- of a receiver, and `copy_sender`, `copy_receiver`, `assign_sender` and `assign_receiver` are the
-- copy constructors and the assignments. Both channels are driven by `step` and `run`, which make
-- one operation after another in any order; an operation is one step: the locks inside a poll are
-- not modelled.
--
-- Io/BufferReader is include/xyco/io/buffer_reader.ccm with the loops of include/xyco/io/read.ccm,
-- over an inner reader given by the list of its answers, after which it is at the end of the file.
-- The loops run on fuel; one round for each answer and two more are enough for read_to_end.
-- Io/WriteAll is the loop of write_all in include/xyco/io/write.ccm over a writer given by the list
-- of its answers.
--
-- Io/Epoll is include/xyco/io/epoll/registry.ccm with src/io/epoll/registry.cc: `register`,
-- `reregister`, `deregister` and `select` over what epoll_ctl and epoll_wait answer.
--
-- Time/Wheel is include/xyco/time/wheel.ccm with src/time/wheel.cc: `insert_event`, `expire` and
-- `walk`; the loops run over the five levels, and running out of levels is the exception that `at`
-- throws. The files Spread to Served below it follow where each event stands, as the clock goes on
-- in whole milliseconds. Time/Registry is include/xyco/time/registry.ccm with src/time/registry.cc,
-- and the future of include/xyco/time/sleep.ccm; Time/Timeout is include/xyco/time/timeout.ccm,
-- over the select of Task/Select.
--
-- Runtime/Core is src/runtime/core.cc with src/runtime/driver.cc: the vector of handles that is
-- filled at its front and run from its back, the loop over it, `run_loop_once`, which makes that
-- loop over the local queue and over that of the runtime and then polls the driver, `wake` and
-- `wake_local`, the poll of the driver, and Launch, the start of the workers. What happens while an
-- entry runs is a turn; the loop runs on the list of turns, and as many as there are entries and
-- pushes are enough to empty the queue. Core/Workers is that loop in several workers at once, as a
-- relation of the steps that they make under the mutex and between.
--
-- Io/Uring is include/xyco/io/io_uring/registry.ccm with src/io/io_uring/registry.cc: `register`,
-- `deregister` and `select` over the slots and completions that liburing gives; an entry of the
-- submission queue keeps what was prepared in its slot, and `sent` lists what was submitted.
-- Io/Events is the vector of registered events, which this registry and that of epoll search.
--
-- Net/Socket is src/net/socket.cc: addresses, and the descriptors that sockets hold. Net/Epoll is
-- src/net/epoll/listener.cc with include/xyco/net/epoll/listener.ccm, and Net/Uring is
-- src/net/io_uring/listener.cc with include/xyco/net/io_uring/listener.ccm: the poll functions of
-- the futures of read, write, connect, accept and shutdown, on the state of the registry and of the
-- runtime together, which is called a reactor. What the system calls answer, with errno, is an
-- argument; a poll is one step.
--
-- Fs/File is src/fs/epoll/file.cc with src/fs/utils.cc: what a file answers from what statx, open,
-- fsync and std::filesystem answer. Fs/Uring is src/fs/io_uring/file.cc, which repeats it, and the
-- futures of read and write of include/xyco/fs/io_uring/file.ccm.
--
-- HttpServer is examples/http_server.cc, a client of the buffered reader, of write_all and of the
-- files: HttpServer/Receive is `receive_request`, HttpServer/Respond is `execute_request`, and
-- HttpServer/Serve puts them together, with `init_server`. Its loops have fuel, one unit for each
-- line or read and two more.
--
-- Not modelled: threads that run at the same time, beyond the order of their steps, which
-- Core/Workers leaves open for the queue of the runtime; thread-local pointers and the maps of
-- registries; the moves and the destructor of FileBase, and the choice of the clock. Log output,
-- aborting and the names of the C library carry no state.
pub mod Common
pub mod Utils
pub mod Runtime
pub mod Task
pub mod Sync
pub mod Io
pub mod Time
pub mod Fs
pub mod Net
pub mod HttpServer
