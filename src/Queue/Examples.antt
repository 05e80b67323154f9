-- ===== src/Queue/Examples.antt =====
-- The theorems about the queues of task2/2.2 at a queue that holds 10 and 20 and has room for one
-- more, and runs of the calls.
use osi.Base.{
  ◌≡◌, ◌+◌, ◌++◌, ◌≢◌, ◌<◌, refl, true, false, none, some, [], ◌∷◌, arith, le_int, inc_int, dec_int,
  inc_long,
}
use osi.Chain.{null, write}
use osi.Machine.{Returns, returns, stop, blocked, fault, ◌>>◌, ◌>>=◌}
use osi.Queue.Store.{Heap, Queue, State, enqueue, dequeue, append_last}
use osi.Queue.Spec.{Fifo, add, get, push, left, tried_add, tried_get}
use osi.Queue.Ends.{Represents}
use osi.Queue.Calls.{minus_one, answer}
use osi.Queue.Cond
use osi.Queue.Cond.{CondLock, Others}
use osi.Queue.Cond.Refines.{Plays, await, cond_add-refines, cond_get-refines, cond_init-add_blocked}
use osi.Queue.Mutex
use osi.Queue.Mutex.{Mutex}
use osi.Queue.Semaphore
use osi.Queue.Semaphore.{Semaphore}
use osi.Queue.Sync
use osi.Queue.Sync.{Lock}
use osi.Queue.Versions.{mutex, semaphore, queue_of, calls-refine}
use osi.Queue.Sync.Example.{main}
use osi.Queue.Sync.Example.Prints.{answers, AllFit, accepted, taken, numbers, run-answers}
use osi.Queue.Sync.Race.{sync_get-dangles}
use osi.Queue.Mutex.Threads
use osi.Queue.Threads.{reader_turn, writer_turn}
use osi.Queue.Threads.Run.{System, IsSound, here, next, writes}
use osi.Queue.Threads.Main.{reader, writer, start_threads}
use osi.Queue.Launch.{main-never_errs}

abbrev heap : Heap
heap =
    write (write (λ _. none) 2 (some (record { val = 20; next = 0 }))) 1
      (some (record { val = 10; next = 2 }))

abbrev queue : Queue
queue = record {
  first = 1;
  last = 2;
  count = 2;
  max_count = 3;
  add_attempts = 2;
  get_attempts = 0;
  add_count = 2;
  get_count = 0;
}

abbrev fifo : Fifo
fifo = record {
  items = 10 ∷ 20 ∷ [];
  cap = 3;
  add_attempts = 2;
  get_attempts = 0;
  add_count = 2;
  get_count = 0;
}

abbrev state : {L : Type 0} → L → State L
state l = record { heap = heap; queue = queue; lock = l }

two : Represents heap queue fifo
two = record {
  cells = (1, 10) ∷ (2, 20) ∷ [];
  is = record {
    first = refl;
    last = refl;
    linked = (ground arith, refl, refl, (ground arith, refl, refl, tt));
    count = refl;
    room = omega arith;
    small = omega arith;
  };
  items = refl;
  cap = refl;
  add_attempts = refl;
  get_attempts = refl;
  add_count = refl;
  get_count = refl;
}

-- A list of outcomes of the mutex version: add, refuse at the bound, take the oldest.
fills_up :
    Returns
      (λ a t. (a ≡ (1, 10)) × (t.queue.count ≡ 2) × (t.queue.last ≡ 7))
      ((Mutex.queue_add 7 30 >>= λ _. Mutex.queue_add 8 40 >>= λ _. Mutex.queue_get 0)
        (state false))
unfolding Mutex.queue_add Mutex.queue_get enqueue dequeue le_int inc_int dec_int inc_long
fills_up = returns (refl, refl, refl)

-- The other threads do nothing while a call waits, but end its wait.
abbrev idle : Others
idle k s = some s

idle-Plays : Plays idle (λ k f. f) 7
idle-Plays = record {
  after = λ k s. s;
  answers = λ k s. refl;
  keeps = λ k s f r free. (r, free, omega arith, omega arith);
  spares = λ k s unused. unused;
}

abbrev free_lock : CondLock
free_lock = record { mutex = false; get_cond = 0; add_cond = 0 }

cond_add-refines_example :
    Returns
      (λ a t.
        (a ≡ 1)
        × Represents t.heap t.queue (push 30 (tried_add fifo))
        × (t.lock.mutex ≡ false)
        × (0 < t.lock.get_cond))
      (Cond.queue_add idle 1 7 30 (state free_lock))
unfolding await
cond_add-refines_example =
    cond_add-refines idle (λ k f. f) 7 idle-Plays (state free_lock) fifo (tried_add fifo) two 1 30
      (omega arith) refl refl refl

cond_get-refines_example :
    Returns
      (λ a t.
        (a ≡ (1, 10))
        × Represents t.heap t.queue (left (20 ∷ []) (tried_get fifo))
        × (t.lock.mutex ≡ false)
        × (0 < t.lock.add_cond))
      (Cond.queue_get idle 1 (state free_lock))
unfolding await
cond_get-refines_example =
    cond_get-refines idle (λ k f. f) 7 idle-Plays (state free_lock) fifo (tried_get fifo) two 1 10
      (20 ∷ []) refl refl refl

cond_init-add_blocked_example :
    (Cond.queue_init true 0 1000000 >> Cond.queue_add idle 1 7 0)
      (state (record { mutex = true; get_cond = 0; add_cond = 0 }))
    ≡ stop blocked
cond_init-add_blocked_example =
    cond_init-add_blocked (state (record { mutex = true; get_cond = 0; add_cond = 0 })) idle 1 7 0
      1000000 (omega arith) refl

-- The threads of the mutex version: behind main, and behind a turn of the writer
abbrev ready : State Mutex
ready = record {
  heap = heap;
  queue = record {
    first = 0;
    last = 0;
    count = 0;
    max_count = 1000000;
    add_attempts = 0;
    get_attempts = 0;
    add_count = 0;
    get_count = 0;
  };
  lock = false;
}

abbrev one_written : System (queue_of mutex)
one_written = record {
  state = record {
    heap = write heap 7 (some (record { val = 0; next = 0 }));
    queue = record ready.queue { first = 7; last = 7; count = 1; add_attempts = 1; add_count = 1 };
    lock = false;
  };
  reader = record { expected = 0; errors = [] };
  i = 1;
}

main-never_errs_example :
    (reader ∷ writer ∷ [] ≡ reader ∷ writer ∷ [])
    × (one_written.reader.errors ≡ [])
    × Returns
        (λ _ t. IsSound (queue_of mutex) t)
        (reader_turn Mutex.queue_get one_written.reader one_written.state)
    × Returns
        (λ _ t. IsSound (queue_of mutex) t)
        (writer_turn Mutex.queue_add 8 one_written.i one_written.state)
unfolding Mutex.Threads.main start_threads Mutex.queue_init Mutex.queue_add enqueue le_int inc_int
    inc_long writer_turn
main-never_errs_example =
    main-never_errs mutex (λ _. 0) (state true) ready
      (record { answer = none; started = reader ∷ writer ∷ [] }) one_written 8 refl refl refl
      (next here (writes 7 (omega arith) refl refl refl)) (omega arith) refl

abbrev one_left : State Lock
one_left = record {
  heap = write (λ _. none) 2 (some (record { val = 20; next = 0 }));
  queue = record queue { first = 2; last = 2; count = 1 };
  lock = tt;
}

sync_get-dangles_example :
    (one_left.queue.first ≢ null)
    × Returns (λ a t. (a ≡ (1, 20)) × (append_last 7 t ≡ stop fault)) (Sync.queue_get 5 one_left)
sync_get-dangles_example = sync_get-dangles one_left 2 20 5 7 (record {
  first = refl;
  last = refl;
  linked = (ground arith, refl, refl, tt);
  count = refl;
  room = omega arith;
  small = omega arith;
})

calls-refine_example :
    Returns
      (λ a t. (a ≡ (add 30 fifo).0) × Represents t.heap t.queue (add 30 fifo).1 × (t.lock ≡ 1))
      (Semaphore.queue_add 7 30 (state 1))
    × Returns
        (λ a t.
          (a ≡ answer 30 (get fifo).0) × Represents t.heap t.queue (get fifo).1 × (t.lock ≡ 1))
        (Semaphore.queue_get 30 (state 1))
calls-refine_example = calls-refine semaphore (state 1) fifo 7 30 two refl (omega arith) refl

run-answers_example :
    Returns
      (λ out _. (answers out ≡ accepted (numbers 10 0) ++ taken 12 (numbers 10 0)) × AllFit out)
      (main true 0 (λ j. j + 50) (state tt))
unfolding main
run-answers_example =
    run-answers 1000 10 12 (λ j. j + 50) (state tt) (omega arith) (omega arith)
      (λ j k less below. omega arith) (λ j below. (omega arith, ground arith))

-- The values in the order of the calls, and then twice nothing
printed :
    accepted (numbers 3 0) ++ taken 5 (numbers 3 0)
    ≡ (1, 0) ∷ (1, 1) ∷ (1, 2) ∷ (1, 0) ∷ (1, 1) ∷ (1, 2) ∷ (0, minus_one) ∷ (0, minus_one) ∷ []
printed = refl
