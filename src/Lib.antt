-- ===== src/Lib.antt =====
-- ostrichserver: a web server in C. What is modelled here is the code that reads a request (the
-- handlers of a connection, the request line parser, the strings cut out of the buffer, the check
-- of a host, the handlers of header lines and the hash table of their names), the string
-- functions that it calls, the loop in which a thread processes its events, with its queues, the
-- list without locks through which threads hand events to each other, the loop over accept and
-- the choice of a thread, what epoll watches for an event, the dictionary with its read-write
-- lock, the spin lock, the dictionary of strings, and the options and the title of the process.
--
-- The parts. http_wait_request_handler (http_request.c) makes a request of the first bytes of a
-- connection, which it reads with os_recv (recv.c) into a buffer of 1024 bytes, and calls
-- http_process_request_line. That handler calls http_parse_request_line (http_parse.c), which
-- runs over the buffer and leaves pointers in the request; when the buffer ends in the middle of
-- the line it returns OS_AGAIN and is called again when http_read_request_header has read more
-- bytes. When the line is complete, http_process_request_uri turns the pointers into strings, and
-- os_http_validate_host checks and lowers the host. Nothing behind the request line is read yet,
-- and no code looks a header up. Still the table of header names is there:
-- http_init_headers_in_hash (http_request.c) fills the hash table of hashtable.c, which finds a
-- place for a key by one hash and knows the key by two others. A header line is meant for the
-- handler that the table of http.c names for it, which searches its value with the functions of
-- osstring.c.
--
-- accept_block_loop (acceptor.c) makes an event of each connection and calls event_schedule
-- (processor.c), which takes the threads in turn and pushes the event on the external queue of
-- the next one (thread_event_enqueue of thread.c, over atomiclist.c). A turn of the loop of that
-- thread (thread_main_event_loop) empties the queue of collected events, of which idle ones are
-- postponed and those with a time go to a bucket of the timed queue (queue.c); it then moves the
-- whole external queue to the collected events, which turns the order of the list back into the
-- order of the pushes, processes the postponed events, of which the first is the one that polls,
-- and at last the timed events that are due. An event with a time moves from bucket to bucket
-- until it is due. epoll_event_add (eventpoll.c) has epoll watch the connection of an event.
--
-- main (main.c) reads the options, and writes the title of the process over its words and its
-- environment, of which os_init_proctitle has made a copy.
--
-- dict.c is a table of chains, in which config.c keeps the records of the configuration file;
-- each operation takes the lock of the dictionary. A full table is given a larger one beside it,
-- into which dict_rehash moves the entries slot by slot. arrays.h has a second dictionary, from
-- strings to pointers, without a lock, which is rebuilt in a larger table when a chain has more
-- than three entries.
--
-- Which file models which part:
-- - Base: Boolean tests, lists and integers over the native numbers; Circle: a step around a
--   circle of places comes to each of them once.
-- - RequestLine/Types, Codes: the states and results, the request and the buffer (http_request.h,
--   http.h, osbuf.h).
-- - RequestLine/Method, Target, Uri, Version: one function for each case of the switch of
--   http_parse_request_line (http_parse.c), named on_ and the state; Parse: the switch, the end
--   of the line and the loop. A pointer is its offset in the buffer, and NULL is none.
-- - RequestLine/Run, Chunks, Bounds, RoundTrip, Tables: the loop without fuel, resumption,
--   bounds, the round trip, and the tables of characters and methods.
-- - OsString/Case: os_tolower and os_strlow (osstring.h, osstring.c).
-- - HttpRequest/Strings, Host: the strings of a request and the check of a host (http_request.c);
--   Slices, ReadBack, HostSpec: what is proved of them.
-- - Lifecycle/Session: a connection with its request, its buffer and its socket (connection.h,
--   http_request.h, osbuf.h), and os_recv (recv.c); Handlers: the handlers of a connection and of
--   a request line (http_request.c); Reading, Closing, OneParse, Waiting: what is proved of them.
-- - OsString/Search, Number: the searches and os_atoi (osstring.c, osstring.h); Finding, Folding:
--   what is proved of the searches.
-- - Headers/Types, Browser, Handlers: a header line, the fields it sets, and the table of
--   handlers (http.h, http.c); Index: the hash table of the names (http_request.c); Laws,
--   Searching, Repeated: what is proved of them.
-- - HashTable/Hash, Table: the hash function with its table, and the operations (hashtable.c);
--   Walk: the order in which places are tried; Adding, Finding, Staying, Outside: what is proved
--   of the operations.
-- - AtomicList/Word: the macros on the head (atomiclist.h, for x86-64). System: the threads and
--   the owner of a list as a step relation (atomiclist.c, thread.c). Chains, Invariant,
--   Producing, Consuming: the invariant of every run; Fifo, Progress, Draining: what is proved of
--   the runs. Alone: the operations as one thread sees them, and the queues that a thread keeps
--   for itself (thread.c).
-- - Processor: the choice of a thread for an event (processor.c).
-- - EventLoop/Thread: the variables of a thread, its queues and its loop (thread.c, event.h);
--   Queued, Order, Loops, Turns, Polling, Redo, Starting: what is proved of it.
-- - Accepting/Schedule: the processor with the external queues of its threads, and the loop over
--   accept (processor.h, processor.c, acceptor.c); Shares, Once: what is proved of them together
--   with the loops of the threads.
-- - SpinLock/Threads: the threads that take and release a lock with spin_lock (spinlock.c,
--   atomic.h); Exclusion, Waiting: what is proved of them.
-- - Polling/Interest: the calls of eventpoll.c; Watched, Modified: what is proved of them.
-- - Startup/Options, Title: the options, and the title of the process (main.c); Flags, Writing,
--   Layout: what is proved of them; Process: the title of a whole process.
-- - TimedQueue/Buckets: which bucket an event goes to; Queue: the buckets as linked events, and
--   the operations (queue.c); Filing, Cycles: what is proved of them.
-- - Dict/Interface: dict_type (dict.h) and the lock of pthreads, which are parameters;
--   Dict/Table, Ops, Rehash, Release, Hashes: the tables, the operations and the hash functions
--   (dict.c); Dict/Slots, Lookup, Growth, Adding, Locking, Replacing, Moving, Rounds: what is
--   proved of them.
-- - Config/Tokens, Records: strtok_r, and the reading of a configuration file into a dictionary
--   (config.c); Opening: config_init with the answers of the system; Cutting, RoundTrip: what is
--   proved of the reading.
-- - Dictionary/Table: the dictionary from strings to pointers (arrays.h, dictionary_t); Counting,
--   Values, Inserting, Removing, Keys: what is proved of it.
-- - Tests: runs on concrete inputs.
--
-- Bounds and fuel. The loop of the parser has fuel 2 * length + 2 for the bytes that are left,
-- since a byte is read again at most once; RequestLine.Run shows that this is always enough.
-- The loop of http_process_request_line has 1026 rounds: each round but the first and the last
-- adds a byte to the 1024 of the buffer. The loops of hashtable.c have as many rounds as the
-- table has places, as in the code. The loop of config_parse_file has as many rounds as the
-- file has bytes, and two more. The passes over a timed queue have fuel, since its links can
-- form a circle, on which the code does not end; what is stated of them holds for every fuel,
-- or names the one it needs. So have the loops of a turn of a thread, which an event to be done
-- again can keep from ending; more rounds than events are queued are enough where no event is
-- of that kind. The loop of _dict_next_power has 64 rounds, since each doubles an unsigned
-- long. Version digits wrap at 16 bits, the version number at 32, the counter of the processor
-- at 32, the length of a host at 64, and the hash of dict.c at 32; os_atoi works in a ssize_t
-- of 64 bits, which is taken to wrap; DictHash works in 64 bits on char values that have a
-- sign.
--
-- Sockets and time. What the calls of recv return is a list of answers: bytes, an interruption,
-- EAGAIN, an error, the end. A time-out of an event is a flag of the connection; no code here
-- sets it, since the function that adds a timer is empty. The buffer is taken to belong to the
-- connection, and the block of the request to be allocated. Times are taken to be far below the
-- limits of their 64 bits.
--
-- Threads. A step of AtomicList/System is one access to memory that other threads can reach, and
-- memory is sequentially consistent, as the compare-and-swap and the volatile head make it on
-- x86-64 for these accesses. A step can be taken by any of any number of threads. An event is
-- pushed once in a run, since event_schedule allocates each; its address lies below 2^47. In the
-- loop of the owner the tests for idle and timed events, which move an event to a queue of the
-- same thread, count as its processing, and an event that is put back for another turn is a
-- matter of the local queue. The mutex and the condition variable of thread_event_dequeue guard
-- no access to the list and are left out; the owner calls it only when the list has an event.
--
-- In EventLoop the events that other threads push between two turns are a list for each turn, and
-- what the handler of an event does to the variables of the thread is a parameter, which the
-- theorems that say so take to leave them alone. epoll_ctl is a parameter of Polling, with the
-- set that it keeps: it adds no descriptor that is there, and changes none that is not.
--
-- In SpinLock a step of a thread is one access to the word of a lock, the steps of the threads
-- come in the order of a list, and memory is sequentially consistent.
--
-- What is not modelled: the calls of sockets and of pthreads, the daemon and fork, the signals,
-- the logs, the clock and the blocks of memory, which are calls of the
-- system with no logic of their own; application.c, session.c and the second thread of
-- reconfig.c, which do nothing; netio_init, init_connection and netio_pollevent, which are
-- called and are not in the repository; and the array macros of arrays.h, a copy of another
-- project's. The fields and lines of the headers under HTTP_GZIP, HTTP_X_FORWARDED_FOR,
-- HTTP_REALIP, HTTP_HEADERS and HTTP_DAV are not compiled and not there. Allocation in dict.c
-- is taken to succeed, as the code takes it to; in http_process_request_uri it is an argument,
-- and the request is freed where it fails. The spin lock of a single entry, which dict_replace
-- takes and releases, is left out of Dict, and so is the call that frees the value that it
-- overwrites.
pub mod Base
pub mod Config
pub mod OsString
pub mod RequestLine
pub mod HttpRequest
pub mod Headers
pub mod AtomicList
pub mod Dict
pub mod Dictionary
pub mod HashTable
pub mod Lifecycle
pub mod TimedQueue
pub mod EventLoop
pub mod Accepting
pub mod Polling
pub mod SpinLock
pub mod Startup
pub mod Processor
mod Tests
