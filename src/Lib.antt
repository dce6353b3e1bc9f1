-- ===== src/Lib.antt =====
-- Inotispy: a daemon that watches directory trees with inotify, queues their events, and hands them
-- out to clients over ZeroMQ.
--
-- The program has these parts. src/main.c runs the event loop: it polls the inotify descriptor and the
-- ZeroMQ socket, and starts the periodic work. src/inotify.c keeps the tables: the watched roots by
-- their paths, each with a bounded queue of events, and the watches by descriptor and by path. Its
-- functions are called from the event loop, from the handlers of requests, and by its own threads, one
-- for each tree that is watched, each root that is destroyed and each memory cleanup. src/zeromq.c
-- takes a message, cuts and parses it with src/request.c, calls the handler, and answers through
-- src/reply.c. src/config.c reads the configuration file at the start and again when it changes, and
-- src/log.c writes to the log file and to syslog as it says. bin/inotispyctl.c is the client of the
-- command line: it sends one request and prints the reply.
--
-- Files and code:
--   Prelude, Text, Glib   the shared helpers: numbers, lists, C strings as lists of character codes
--                         with the strstr and strcmp of string.h, and the interface of GHashTable. The
--                         laws of that interface are its documented behaviour; Glib/Assoc shows that
--                         they can hold. Text/Decimal is "%d" and atoi, Text/Lines about fgets.
--   Reply                 src/reply.h, src/reply.c: the error codes and their texts.
--   Request               src/request.h, src/request.c; json-c is the parameter JsonC. Request/Laws is
--                         about the path, Request/Fields about the integers.
--   Inotify               src/inotify.h: Root, Watch, Event, and the global tables as the record State.
--                         What is called of the system is the record Kernel, over a world that its calls
--                         pass on.
--   Inotify/Paths         inotify_path_to_root and inotify_is_parent.
--   Inotify/Queue         inotify_enqueue, inotify_dequeue, inotify_get_events, the pause flag. Fifo is
--                         about one call, History about a sequence of them.
--   Inotify/Watching      do_watch_tree, _do_watch_tree, _do_watch_tree_rec. A visit of a directory is
--                         watch_dir; Induction, Ends and Tree are about the recursion.
--   Inotify/Events        inotify_handle_event: what one event does, with Delivery and Dirs about it. Buffer
--                         is the loop over the bytes that a read returns, and Whole is about that loop.
--   Inotify/Destroy       destroy_root, _destroy_root, inotify_unwatch_tree.
--   Inotify/Dump          inotify_dump_roots; Line has the text of the dump file, Fields and RoundTrip
--                         are about it.
--   Inotify/Roots         inotify_watch_tree, inotify_get_roots, inotify_num_watched_dirs.
--   Inotify/Memclean      inotify_memclean, _inotify_memclean, inotify_rewatch_roots.
--   Inotify/Setup         inotify_setup, of the entries of the dump file. Stream is the stream of stdio:
--                         its buffer is filled, when it is empty, from what the file then holds, and
--                         each watch of a root writes the file again. Reading is the loop over the
--                         lines. Lines, Growth and Rewatched are about a line in the buffer, the length
--                         of the dump and one entry; Restart is about a start from a dump.
--   Inotify/Agree, Keeps  the invariant of the two watch tables.
--   Inotify/Registry      the invariant of the table of roots.
--   Inotify/Pending       the invariant of the threads and of the count of roots.
--   Inotify/Sound         the three of them together, and the threads as steps.
--   Zeromq                src/zeromq.c: Actions and Handlers are the EVENT_ functions, Dispatch is
--                         zmq_dispatch_event and zmq_handle_event. Replies and Total count the replies,
--                         Keeps carries the invariant, Answers and Uptimes are about single replies.
--   Daemon                the event loop of src/main.c, and the steps of a daemon that main has started:
--                         a round of the loop, a thread, the handler of SIGHUP, a change of the world
--                         outside. Started and Invariant carry the invariants, Safety is about
--                         all that can be reached.
--   Config                src/config.h, src/config.c: CONFIG as a record, init_config, reload_config and
--                         print_config. GKeyFile and the file system are arguments. Load/Valid and
--                         Load/Silent are about the values, Load/Uri about the memory of the URI.
--   Log                   src/log.h, src/log.c: the level, the log file and the mask of syslog.
--   Main                  alarm_handler of src/main.c, and main up to the loop: Options, Pid and Start.
--                         Signals is sig_handler and clear_config; Interrupt is about SIGINT.
--                         Settled and Updates are about the configuration over time, Start/Second
--                         about the pid file. A part that exits or crashes is a value of Outcome.
--   Client                bin/inotispyctl.c. A command is a program over a socket and an output that
--                         may exit at any point (Run). Texts are the requests, Messages the exchange,
--                         Commands the commands, Dispatch is main. Handover sets the requests before
--                         zmq_handle_event; Numbers, Results and Success are about the commands.
--   Tests                 a small system, and runs on it.
--
-- A function of the program that changes the tables takes the State and returns the new one. A return
-- code of 0 is `none`, an error is `some` of its code. Where the C code reads outside a buffer the
-- model's result is `none`, in an Option of its own around the result. A `Root *` is the path under
-- which the root was looked up, so that a write through it is a write to that entry of the table. A
-- GQueue is a list, the oldest event first. A thread that was created waits in the list `tasks` until a
-- step runs it. A reply is the value that its text renders.
--
-- _do_watch_tree_rec recurses on fuel, which bounds the depth of the tree. A path grows with each level,
-- and a path that the system cannot open ends the recursion, so the limit of the length of a path, less
-- the length of the first, is enough. The loop over the events of a read takes at
-- least a character in each round, so the length of the text is enough. How many rounds of the loop over
-- the dump file are looked at is an argument, and a loop that has not ended then has no result: a file
-- that is written while it is read has no bound in general. More rounds never change a result
-- (read_entries_more), and for a dump that fits in the buffer one round more than roots is enough. The
-- size of that buffer is an argument too. A printed number has ten digits at most.
--
-- Not modelled: a failure of malloc or vsnprintf; the mutexes, and with them the interleaving of two
-- threads inside their bodies (a thread runs as a whole between two rounds of the loop); memory that is
-- freed while another thread holds a pointer to it; what is printed to stderr; the messages that
-- inotify.c and zeromq.c log, the debug message of main before its loop, and the conversions in a format
-- of a message; inotify_init and the creation of the tables in inotify_setup, which are taken to succeed;
-- a signal that arrives inside a round or a thread; the rendering of replies by json-c; the sockets; and
-- the examples, which send one request each, as the client does. The time that a round reads is one number.
pub mod Prelude
pub mod Text
pub mod Config
pub mod Log
pub mod Glib
pub mod Reply
pub mod Request
pub mod Inotify
pub mod Main
pub mod Zeromq
pub mod Daemon
pub mod Client
pub mod Tests
