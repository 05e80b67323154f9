-- ===== src/Proxy/Sockets.antt =====
-- task3/src/custom_socket.c: the socket of the proxy, and the connection to a server. What the calls
-- of the operating system answer is an argument; -1 is `none`.
use osi.Base.{
  ℕ, ◌≡◌, refl, Bool, Option, none, some, List, [], ◌∷◌, if◌then◌else◌, ap, ◌==◌, ==_self,
  Option-cases, Bool-cases, inl, inr,
}

-- An address of the list that `getaddrinfo` gives, with what `socket` and `connect` answer for it.
pub record Address : Type 0 where
  pub socket : Option ℕ
  pub connects : Bool

-- What a function returns, and the sockets that it has opened and not closed.
pub record Opened : Type 0 where
  pub fd : Option ℕ
  pub open_fds : List ℕ

unfoldable pub create_server_fd : (socket : Option ℕ) (setsockopt bind listen : Bool) → Opened
create_server_fd none setsockopt bind listen = record { fd = none; open_fds = [] }
create_server_fd (some fd) setsockopt bind listen =
    if setsockopt
    then (if bind
        then (if listen
            then record { fd = some fd; open_fds = fd ∷ [] }
            else record { fd = none; open_fds = fd ∷ [] })
        else record { fd = none; open_fds = fd ∷ [] })
    else record { fd = none; open_fds = fd ∷ [] }

-- `close(fd)`
unfoldable pub close_fd : ℕ → List ℕ → List ℕ
close_fd fd [] = []
close_fd fd (open_fd ∷ fds) = if open_fd == fd then fds else open_fd ∷ close_fd fd fds

-- The loop over the addresses, with `host_fd` and the open sockets as they are at its head
unfoldable pub try_addresses : (host_fd : Option ℕ) (open_fds : List ℕ) → List Address → Opened
unfolding close_fd
try_addresses host_fd open_fds [] = record { fd = host_fd; open_fds = open_fds }
try_addresses host_fd open_fds (a ∷ rest) = elim a.socket [
  | none ↦ try_addresses none open_fds rest
  | some fd ↦
      let later = try_addresses (some fd) (close_fd fd (fd ∷ open_fds)) rest in
      if a.connects then record { fd = some fd; open_fds = fd ∷ open_fds } else later
]

-- `getaddrinfo` has given the addresses, or failed: then `addr_arr`, which is not initialised, is
-- freed, which is undefined.
unfoldable pub connect_via_host_name : (addresses : Option (List Address)) → Option Opened
unfolding try_addresses
connect_via_host_name none = none
connect_via_host_name (some addresses) = some (try_addresses none [] addresses)

-- The socket of the first address to which a connection is made
abbrev pub first_connection : List Address → Option ℕ
first_connection [] = none
first_connection (a ∷ rest) = elim a.socket [
  | none ↦ first_connection rest
  | some fd ↦ if a.connects then some fd else first_connection rest
]

-- What `socket` has answered last, or `host_fd`
abbrev pub last_socket : Option ℕ → List Address → Option ℕ
last_socket host_fd [] = host_fd
last_socket host_fd (a ∷ rest) = last_socket a.socket rest

-- The call has returned, and `P` holds of what it returned.
abbrev pub Returned : (Opened → Type 0) → Option Opened → Type 0
Returned P none = ⊥
Returned P (some o) = P o

-- What is returned where some address answers, and where none does
abbrev pub Dialled : List ℕ → Option ℕ → Option ℕ → Opened → Type 0
Dialled fds (some fd) last o = o ≡ record { fd = some fd; open_fds = fd ∷ fds }
Dialled fds none last o = o ≡ record { fd = last; open_fds = fds }

try_addresses-Dialled :
    (host_fd : Option ℕ) (fds : List ℕ) (addresses : List Address)
    → Dialled fds
        (first_connection addresses)
        (last_socket host_fd addresses)
        (try_addresses host_fd fds addresses)
unfolding try_addresses
try_addresses-Dialled host_fd fds [] = refl
try_addresses-Dialled host_fd fds (a ∷ rest) = elim (Option-cases a.socket) [
  | inl none_left ↦ rw none_left (try_addresses-Dialled none fds rest)
  | inr (fd, e) ↦ elim (Bool-cases a.connects) [
    | inl yes_it_does ↦ rw (e, yes_it_does)
    | inr fails ↦ rw (e, fails, ==_self fd) (try_addresses-Dialled (some fd) fds rest)
  ]
]

-- On any list of addresses, connect_via_host_name returns: where some address answers, the socket
-- of the first one that does, and only this socket is open; where none does, what the last call of
-- socket has answered, and no socket is open, so that the answer can be a socket that has been
-- closed.
pub connect_via_host_name-Dialled :
    (addresses : List Address)
    → Returned
        (λ o. Dialled [] (first_connection addresses) (last_socket none addresses) o)
        (connect_via_host_name (some addresses))
unfolding connect_via_host_name
connect_via_host_name-Dialled addresses = try_addresses-Dialled none [] addresses

pub connect_via_host_name-closed :
    (addresses : List Address) (fd : ℕ)
    → first_connection addresses ≡ none
    → last_socket none addresses ≡ some fd
    → connect_via_host_name (some addresses) ≡ some (record { fd = some fd; open_fds = [] })
unfolding connect_via_host_name
connect_via_host_name-closed addresses fd e last =
    let d = try_addresses-Dialled none [] addresses in ap some (rw (e, last) at d)
