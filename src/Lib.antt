-- ===== src/Lib.antt =====
-- File Sync System: three programs that keep pairs of directories in step. `fss_console` sends the
-- user's commands through a FIFO to `fss_manager`, which watches the source directories with
-- inotify and starts a `worker_process` for each task of synchronisation; a worker writes its
-- report into a pipe, and the manager reads it back. Tasks that find no free worker wait in a
-- queue.
--
-- Common holds the names that all modules share and the functions of `string.h` that the program
-- calls (`strcmp`, `strtok`), on C strings as lists of bytes without their NUL. Heap has nodes at
-- addresses, for the queue and the chains. Queue models include/queue.h and src/queue.c on that
-- heap: `push_action`, `pop_action`, `is_empty` and `create` are `queue_push_action`,
-- `queue_pop_action`, `queue_is_empty` and `queue_create`, and `destroy_loop` is the loop of
-- `queue_destroy`; the `free` behind it is not modelled. The address that `malloc` gives is an
-- argument, NULL where it fails. Lnode models include/lnode.h and src/lnode.c, and MemStore
-- src/sync_info_mem_store.c: `add`, `find`, `remove`, `rehash` and `destroy` are the functions of
-- those names behind `sync_info_mem_store_`. A chain is owned by its slot, so that it is the list of
-- its values; Lnode.Nodes has the same functions on nodes at addresses. In the store `malloc`
-- succeeds, and hands out arrays whose contents are a parameter.
-- `add` and `rehash` call one another, and take the depth of the calls as fuel: one level is
-- enough where no rehash takes place. ListNode models include/list_node.h and src/list_node.c, and
-- HashTable src/hash_table.c, the table from the descriptors of watches to directories. A pointer
-- owns its node; `leftover` is what `malloc` left in the field `next` of a new node, which the
-- code does not assign: NULL, a wild pointer or a chain. Keys are the bits of an `int`.
-- HashTable.Rehash is `hash_table_rehash`, which nothing calls; its loop takes a round for each
-- node as fuel. Worker.Files is the interface of the file system that src/worker_process.c calls,
-- and what the worker relies on, as POSIX describes it. Which paths lead to different files is a
-- relation of that interface, `Apart`; it is not read off the texts. Over it Worker.Copy models
-- `delete_file` and `synchronize_files`, Worker.Main the four operations of `main`, and
-- Worker.Process the whole of it; the copying runs on fuel, and one round more than the bytes of the
-- file is enough.
-- Worker.Number and Worker.Report model `number_to_string` and the report. Manager.Scan and
-- Manager.Report model `is_substring`, `is_full_command` and `extract_workers_output` of
-- src/fss_manager.c; the loops of the last one run on fuel, and a round for each byte of the
-- buffer and one more is enough. Protocol joins the two ends of the pipe and of the FIFO of
-- commands, and follows a report into the store. Protocol.Startup runs the first loop of the
-- manager on what the workers write, each report in one piece; a round for each pair that is read,
-- each report, each round without one behind the end of the file, and one for that end, is enough
-- fuel. Console models the reading of a command by src/fss_console.c, Console.Loop its arguments,
-- its loop over a sequence of events and the copying of the manager's last output behind it, and
-- Manager.Command how the manager takes a command apart.
--
-- The loops of `main` in src/fss_manager.c stand in the other modules of Manager. Run is the
-- result of a part of `main`: a value, a call of `exit`, a failed `assert`, or an access that C
-- does not define. Workers is the table of workers with its pointers to buffers, and Collect the
-- passage over the workers that both loops begin with. Config is the first loop, over the
-- configuration file. Args reads the arguments of the manager, with `atoi` as a parameter. Fifos
-- creates the two named pipes, over an interface of the directory and what POSIX says of it.
-- Phases has the state before each of the loops, behind the `malloc` of the arrays, and Program puts
-- all parts of `main` together, in their order; whether there is memory for the arrays of a limit is
-- a parameter. State, Event, Dispatch and Loop are the second one: an
-- event of inotify, read from the bytes of `buffer`, the commands of the console, and a round.
-- What the system gives in a round (which descriptors are ready, what `read` takes, process
-- numbers, descriptors, the time and what `malloc` leaves) is a supply, an argument of the round;
-- the loops take one for each round and run on the number of rounds as fuel, since nothing bounds
-- it: both wait for the system. The queue of tasks is the list that Queue.Fifo shows it to
-- represent, `spawned` the calls of `execl` of the children, `out` what is written to `fss_out`.
--
-- Not modelled: the fixed sizes of the text buffers (a text of any length fits; the 1024 bytes of
-- the worker's `error_buffer` are not checked in the code either), the processes, signals, pipes
-- and files themselves, a `malloc` of the manager's that fails but for those of its arrays, the
-- contents of the log files, and the opening of the console's files. A worker's listing of a
-- directory is what `readdir` gives as of `opendir`, and its `malloc` succeeds. In the second loop,
-- where more than one event of inotify would move the rest of `buffer` to its start by a `strcpy`
-- between parts that overlap, the model stops, so that `pos` stays 0; the variables that `continue`
-- leaves behind are not read again.
pub mod Common
pub mod Heap
pub mod Queue
pub mod Lnode
pub mod ListNode
pub mod HashTable
pub mod MemStore
pub mod Worker
pub mod Console
pub mod Manager
pub mod Protocol
mod Tests
