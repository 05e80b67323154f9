-- ===== src/Lib.antt =====
-- Verification of the laboratory programs of this repository: the threads of task1/task1-6 and
-- task1/task1-7, the queues of task2/2.2, the lists of task2/2.3 and the caching HTTP proxy of
-- task3.
--
-- The program's parts.
--
-- * task1/task1-6/mythread_create.c has threads made by clone, with calls to cancel, detach and
--   join.
-- * task1/task1-7/uthread.c has threads in user space: a ring of threads, each with a stack of its
--   own and its structure at the top of it, a scheduler that passes control to the next thread that
--   does not sleep and unmaps the stacks of ended threads at every 30th turn, and an alarm.
-- * task2/2.2 holds one bounded queue five times: without locks, with a mutex, with a spinlock,
--   with a semaphore and with condition variables. A queue is a chain of nodes on the heap.
-- * task2/2.3 holds one list three times, with a mutex, a read-write lock or a spinlock in each
--   node.
-- * task3 is a proxy. A thread for each client reads a request (src/http_parser.c), looks the URL
--   up in the cache (src/cache.c, src/main.c), starts a thread that fetches the answer of the
--   server (server_handler), and sends what the entry holds (send_cached_content). A collector
--   (src/garbage_collector.c) takes old entries out. The threads count their references to an
--   entry.
--
-- The files.
--
-- * Base, Machine and Chain are shared. Base has the tests, the list functions and the C integers
--   over the native numbers: an int is its pattern of 32 bits, a long of 64. A command of Machine
--   gives a result and a state, or stops: a fault is undefined behaviour (NULL or freed memory), an
--   abort is a call of abort or a failed assert, a blocked thread waits for ever, and no fuel is a
--   loop that the model has cut off. `Returns P c` says that `c` returns and `P` holds then, and
--   `Ensures P c` that `P` holds if it returns. Chain has linked nodes on a heap, which is a
--   function from addresses; NULL is 0.
-- * Queue.Store has the heap, `queue_t` and the lines that all versions of task2/2.2 share;
--   Queue.Sync, Queue.Mutex, Queue.Spinlock, Queue.Semaphore and Queue.Cond have the functions
--   queue_init, queue_add, queue_get and queue_destroy of each version, with its lock. Queue.Spec
--   is the abstract bounded queue, Queue.Shape and Queue.Ends relate it to the heap, and
--   Queue.Calls has what the proofs about the five versions share. Queue.Threads has a turn of the
--   reader and of the writer of queue-threads.c over any version, Queue.Threads.Run the interface
--   of a version and the interleavings; the module Threads of each version is its instance, and
--   Queue.Versions puts them side by side. Queue.Threads.Main is main up to pthread_exit, and
--   Queue.Launch what the threads do from there on. Queue.Sync.Race is a race in the version
--   without locks, and Queue.Sync.Example is queue-example.c.
-- * List.Store has the functions of list.c of task2/2.3 with the type of the lock as a parameter,
--   and List.Threads the turns of the threads in list-threads.c, with the interface of such a lock
--   as a parameter; List.Mutex, List.Rwlock and List.Spinlock are the instances.
--   List.Spinlock.Threads has the turns of the spinlock version, whose order differs, and List.Fill
--   is fill_list, with its strings and what it leaves in the modules below it. List.Main is main up
--   to pthread_exit, also with the size of its list as an argument, and the module Launch of each version is the instance. List.Swap, List.Laws,
--   List.Ends and List.Front are about the sequence of items that a list holds.
-- * List.Threads.Steps cuts a turn of thread_comparision, and the second half of one of
--   swap_threads, into four steps, and List.Concurrent has any number of such threads on one list
--   with mutexes: List.Concurrent.Ring is the list as a ring, List.Concurrent.Invariant what holds
--   at every moment, List.Concurrent.Moves and List.Concurrent.Runs the steps, and
--   List.Concurrent.Progress is about threads that all wait. List.Threads.Races is about two
--   threads that swap.
-- * Proxy.Libraries has the libraries c-vector, hashmap.c and llhttp as records of their
--   operations, with the documented laws of the vectors. Proxy.Http is http_parser.c,
--   Proxy.Cache is cache.c and hashmap_get_or_set of main.c, Proxy.References has the places of
--   main.c and garbage_collector.c that change ref_counter, with their interleavings in the modules
--   Steps, Moves and Races below it, and Proxy.Fetch is server_handler of
--   main.c. Proxy.Sockets is custom_socket.c. Proxy.Send is send_cached_content of main.c, and
--   Proxy.Client is client_handler up to the creation of the fetching thread; Proxy.Slice is what
--   one write takes.
-- * Mythread is task1/task1-6/mythread_create.c; Mythread.Child is about a thread that ends, and
--   Mythread.Join about the join.
-- * Uthread.State has the structures and globals of task1/task1-7/uthread.c, Uthread.Scheduler the
--   functions uthread_scheduler, uthread_sleep and alarm_sig_handler, Uthread.Create
--   uthread_create, Uthread.Start start_thread, and Uthread.Main main up to the moment when the
--   first thread runs. Chain.Segment has the linked nodes of the ring.
--
-- How code and model correspond. What malloc answers is an argument (`fresh`, and `allocated` where
-- only NULL matters); so is an error of pthread_create. An output parameter is a second component
-- of the answer. A socket is the list of the answers of `read` so far. Text in memory is the list
-- of the bytes that are allocated, and a read behind its end is `none`. Where nothing else is said,
-- a queue or list has one thread at work, and a lock that is not free blocks. Queue.Cond takes what
-- the other threads do during each wait as a parameter. Proxy.References.Races is an interleaving
-- of many threads, in which a step is what a thread does while it holds the mutex of an entry, or a
-- call of destroy_pair.
-- Proxy.Send takes what the other threads do to the entry, at each moment at which they can, as a
-- parameter, and so the answers of write. In Queue.Threads.Run a step is a whole turn of the reader
-- or the writer. In List.Concurrent a step is what a thread does up to its next call that takes or
-- gives back a lock, that call included, and a lock that is not free keeps the thread where it is.
-- In Uthread a context is where it goes on, in the code of its thread or in the loop of the
-- scheduler; a command ends where another context runs; the answers of clock, mmap and munmap are
-- arguments, and munmap takes what lies in the stack from the heap.
--
-- Fuel. The loops of queue_destroy and list_destroy run on fuel, one unit for each test; one more
-- than there are nodes is enough. The waits of Queue.Cond have fuel for the tests of their loops;
-- as much as the abstract run needs is enough. iterate_over_map has fuel for the items of the
-- table. The loops on `read` recurse on the list of its answers. fill_list has fuel for each round;
-- one more than there are nodes to add is enough. The threads of task2/2.3 never end; the fuel of
-- compare_turns is the number of turns. In Proxy.Send and Proxy.Client the loops around write have
-- fuel for each round; one more than there are bytes is enough where nobody else is at work. The
-- search of uthread_scheduler has fuel for each test; as much as there are threads is enough if one
-- of them is awake. The loop of mythread_join has fuel for each test.
--
-- Not modelled: the monitors that print for ever, main of the proxy and of mythread_create.c, and
-- the calls of the operating system for CPUs and signals; exchanges of swap_threads on a list of
-- task2/2.3 while others are at work, but for one race; the alarm during main of uthread.c; in
-- task1, all but mythread_create.c and uthread.c, of which the lines behind swapcontext and the
-- set-up of the contexts are left out. In Proxy.Fetch the locks around the changes of one entry are
-- left out, since only one thread fetches into it; the lock of the table, and the read-write lock
-- and the condition variable of an entry, are not in the state of Proxy.Cache. Nothing is
-- assumed of what the hash table finds, since my_compare reads behind the end of keys that have no
-- 0 byte. A free of the vectors of an entry is the free of the entry. In task2/2.2 the lines of
-- queue_destroy behind its loop, which destroy the lock and free the queue, are left out.
pub mod Base
pub mod Machine
pub mod Chain
pub mod Queue
pub mod List
pub mod Proxy
pub mod Mythread
pub mod Uthread
