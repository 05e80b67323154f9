-- ===== src/Proxy/References/Steps.antt =====
-- The steps of the threads of task3 that use one entry: clients that send it, the threads that
-- fetch it, and the garbage collector. A step is what a thread does while it holds the mutex of the
-- entry; `destroy_pair`, which comes behind the mutex, is a step of its own.
use osi.Base.{ℕ, ◌+◌, ◌^◌, ◌≡◌, ◌<◌, Bool, true, false, none, some, if◌then◌else◌}
use osi.Machine.{ok}
use osi.Proxy.Libraries.{Vectors, HashMaps}
use osi.Proxy.Cache.{Entry, Pair, key, Proxy, destroy_pair}
use osi.Proxy.References.{collect_locked, acquire, release_locked, server_release, server_gives_up}

module _ (vectors : Vectors) (maps : HashMaps (Pair vectors) (key vectors)) where
  -- The state, and how many clients and fetching threads are between the two ends of their use.
  -- `dying` is how many threads have found the counter 0 and are about to call `destroy_pair`;
  -- `late` adds up how many of these there were whenever a thread counted itself.
  pub record System : Type 0 where
    pub proxy : Proxy vectors maps
    pub clients : ℕ
    pub servers : ℕ
    pub dying : ℕ
    pub late : ℕ

  abbrev pub users : System → ℕ
  users a = a.clients + a.servers

  -- one more thread about to destroy the entry, or not
  abbrev pub one_if : Bool → ℕ
  one_if b = if b then 1 else 0

  -- One thread takes its next step on the entry of `pair`; there are fewer than `2 ^ 64` threads.
  -- A fetching thread that returns on a parse error takes no step: it stays counted.
  pub data Step (pair : Pair vectors) (a b : System) : Type 0 where
    client_enters :
        acquire vectors maps pair a.proxy ≡ ok tt b.proxy
        → users a + 2 < 2 ^ 64
        → b.clients ≡ a.clients + 1
        → b.servers ≡ a.servers
        → b.dying ≡ a.dying
        → b.late ≡ a.late + a.dying
        → Step pair a b
    server_enters :
        acquire vectors maps pair a.proxy ≡ ok tt b.proxy
        → users a + 2 < 2 ^ 64
        → b.clients ≡ a.clients
        → b.servers ≡ a.servers + 1
        → b.dying ≡ a.dying
        → b.late ≡ a.late + a.dying
        → Step pair a b
    client_leaves :
        (due : Bool)
        → release_locked vectors maps pair a.proxy ≡ ok due b.proxy
        → a.clients ≡ b.clients + 1
        → b.servers ≡ a.servers
        → b.dying ≡ a.dying + one_if due
        → b.late ≡ a.late
        → Step pair a b
    server_leaves :
        server_release vectors maps pair a.proxy ≡ ok tt b.proxy
        → b.clients ≡ a.clients
        → a.servers ≡ b.servers + 1
        → b.dying ≡ a.dying
        → b.late ≡ a.late
        → Step pair a b
    server_fails :
        server_gives_up vectors maps pair a.proxy ≡ ok tt b.proxy
        → b.clients ≡ a.clients
        → a.servers ≡ b.servers + 1
        → b.dying ≡ a.dying
        → b.late ≡ a.late
        → Step pair a b
    collects :
        (due : Bool)
        → collect_locked vectors maps pair a.proxy ≡ ok due b.proxy
        → b.clients ≡ a.clients
        → b.servers ≡ a.servers
        → b.dying ≡ a.dying + one_if due
        → b.late ≡ a.late
        → Step pair a b
    destroys :
        destroy_pair vectors maps pair a.proxy ≡ ok tt b.proxy
        → b.clients ≡ a.clients
        → b.servers ≡ a.servers
        → a.dying ≡ b.dying + 1
        → b.late ≡ a.late
        → Step pair a b

  pub data Reach (pair : Pair vectors) (a : System) : System → Type 0 where
    here : Reach pair a a
    next : {b c : System} → Reach pair a b → Step pair b c → Reach pair a c

  -- The reference of the cache itself, until the collector takes it back.
  abbrev pub cache_ref : Entry vectors → ℕ
  cache_ref e = if e.is_released_by_gb then 0 else 1

  -- The entry is there, its mutex is free between the steps, and the counter counts.
  pub record Alive (pair : Pair vectors) (a : System) (e : Entry vectors) : Type 0 where
    pub there : a.proxy.entries pair.entry ≡ some e
    pub free : e.mutex ≡ false
    pub counted : e.ref_counter ≡ users a + cache_ref e
    pub few : users a + 1 < 2 ^ 64
    pub quiet : a.dying ≡ 0

  -- Nobody uses it, and one thread is about to free it.
  pub record Doomed (pair : Pair vectors) (a : System) (e : Entry vectors) : Type 0 where
    pub there : a.proxy.entries pair.entry ≡ some e
    pub free : e.mutex ≡ false
    pub old : e.is_released_by_gb ≡ true
    pub nobody : users a ≡ 0
    pub one : a.dying ≡ 1

  -- It has been freed, and nobody uses it.
  pub record Gone (pair : Pair vectors) (a : System) : Type 0 where
    pub freed : a.proxy.entries pair.entry ≡ none
    pub nobody : users a ≡ 0
    pub none_dying : a.dying ≡ 0

  pub data Inv (pair : Pair vectors) (a : System) : Type 0 where
    alive : (e : Entry vectors) → Alive pair a e → Inv pair a
    doomed : (e : Entry vectors) → Doomed pair a e → Inv pair a
    gone : Gone pair a → Inv pair a
