-- ===== src/Server.antt =====
-- src/server.rs, and `main` of src/main.rs: the choice of the port, the listeners and the tasks that
-- accept connections. The calls of socket2 and tokio are operations on the system's sockets.
pub mod Listener
pub mod Port
pub mod Workers
use ember.Prelude.{
  ℕ, zero, suc, ◌+◌, ◌%◌, ◌^◌, Bool, true, false, ◌||◌, List, [], ◌∷◌, ◌++◌, ltb, if◌then◌else◌,
  Result, ok, err, panic, out_of_fuel, map,
}
use ember.Text.{Bytes, codes}
use ember.Text.Decimal.{format_usize, max_u16}
use ember.Database.Map.{DashMap}
use ember.Database.Core.{Db}
use ember.Rdb.{Now}
use ember.Rdb.File.{FileSystem}
use ember.Snapshot as Snapshot
use ember.Start.{parse_args}

-- `std::io::ErrorKind`, as far as the program tells errors apart
pub data ErrorKind : Type 0 where
  addr_in_use : ErrorKind
  other : Bytes → ErrorKind

-- What an `anyhow::Error` holds: contexts, the newest first, around an error of a call.
pub data Cause : Type 0 where
  io : ErrorKind → Cause
  context : Bytes → Cause

abbrev pub Error : Type 0
Error = List Cause

is_addr_in_use : Cause → Bool
is_addr_in_use (io addr_in_use) = true
is_addr_in_use (io (other e)) = false
is_addr_in_use (context why) = false

-- `e.chain().any(..)`
unfoldable pub is_in_use : Error → Bool
unfolding is_addr_in_use
is_in_use [] = false
is_in_use (c ∷ e) = is_addr_in_use c || is_in_use e

-- what a call comes to
pub data Called (A : Type 0) : Type 0 where
  done : A → Called A
  refused : ErrorKind → Called A

-- The address is 127.0.0.1 and a port.
pub record Sockets : Type 1 where
  pub Net : Type 0
  pub Socket : Type 0
  pub Listener : Type 0
  -- `Socket::new(Domain::IPV4, Type::STREAM, Some(Protocol::TCP))`
  pub socket : Net → Called Socket × Net
  pub set_reuse_port : Bool → Socket → Net → Called Unit × Net
  pub set_reuse_address : Bool → Socket → Net → Called Unit × Net
  pub set_nonblocking : Bool → Socket → Net → Called Unit × Net
  pub bind : ℕ → Socket → Net → Called Unit × Net
  pub listen : ℕ → Socket → Net → Called Unit × Net
  -- `TcpListener::from_std(socket.into())`
  pub from_std : Socket → Net → Called Listener × Net
  -- a socket, or a listener, that is dropped
  pub close : Socket → Net → Net
  pub close_listener : Listener → Net → Net

abbrev pub backlog : ℕ
backlog = 1024

-- `"127.0.0.1:{}"`
abbrev address : ℕ → Bytes
address port = codes "127.0.0.1:" ++ format_usize port

module _ (sys : Sockets) where
  open sys use {Net, Socket, Listener}

  abbrev pub Does : Type 0 → Type 0
  Does A = Result Error A × Net

  -- `.context(why)?` on a call of the socket, which is dropped if the function returns
  on_socket : Bytes → Socket → Called Unit × Net → (Net → Does Listener) → Does Listener
  on_socket why s (done u, n) k = k n
  on_socket why s (refused e, n) k = (err (context why ∷ io e ∷ []), sys.close s n)

  on_listener : Called Listener × Net → Does Listener
  on_listener (done l, n) = (ok l, n)
  on_listener (refused e, n) =
      (err (context (codes "Tokio TcpListener conversion failed") ∷ io e ∷ []), n)

  configure : ℕ → Socket → Net → Does Listener
  unfolding on_socket on_listener
  configure port s n₀ =
      on_socket (codes "SO_REUSEPORT not supported on this platform") s
        (sys.set_reuse_port true s n₀)
        λ n₁. on_socket (codes "SO_REUSEADDR failed") s (sys.set_reuse_address true s n₁) λ n₂.
          on_socket (codes "O_NONBLOCK failed") s (sys.set_nonblocking true s n₂) λ n₃.
            on_socket (codes "bind() to " ++ address port ++ codes " failed") s (sys.bind port s n₃)
              λ n₄.
                on_socket (codes "listen() failed") s (sys.listen backlog s n₄)
                  λ n₅. on_listener (sys.from_std s n₅)

  on_new_socket : ℕ → Called Socket × Net → Does Listener
  unfolding configure
  on_new_socket port (done s, n) = configure port s n
  on_new_socket port (refused e, n) = (err (context (codes "socket() failed") ∷ io e ∷ []), n)

  unfoldable pub build_listener : ℕ → Net → Does Listener
  unfolding on_new_socket
  build_listener port n = on_new_socket port (sys.socket n)

  -- `port += 1` of a `u16`
  next_port : Bool → ℕ → Result Error ℕ
  next_port checks port =
      if ltb port max_u16 then ok (port + 1) else if checks then panic else ok ((port + 1) % 2 ^ 16)

  -- The `match build_listener(addr)` of `Server::new`: the listener was only a test, and is dropped.
  on_attempt : Bool → ℕ → (ℕ → Net → Does ℕ) → Does Listener → Does ℕ
  unfolding next_port
  on_attempt checks port again (ok l, n) = (ok port, sys.close_listener l n)
  on_attempt checks port again (err e, n) =
      if is_in_use e
      then elim (next_port checks port) [
        | ok port' ↦ again port' n
        | err e' ↦ (err e', n)
        | panic ↦ (panic, n)
        | out_of_fuel ↦ (out_of_fuel, n)
      ]
      else (err (context (codes "failed to bind to port " ++ format_usize port) ∷ e), n)
  on_attempt checks port again (panic, n) = (panic, n)
  on_attempt checks port again (out_of_fuel, n) = (out_of_fuel, n)

  -- The loop of `Server::new`; each port that is tried costs a unit of fuel.
  unfoldable pub find_port : Bool → ℕ → ℕ → Net → Does ℕ
  unfolding on_attempt
  find_port checks zero port n = (out_of_fuel, n)
  find_port checks (suc fuel) port n =
      on_attempt checks port (λ p m. find_port checks fuel p m) (build_listener port n)

  -- how `run` goes, up to the wait for the acceptors
  abbrev pub Ran : Type 0
  Ran = Result Error Unit × (List Listener × Net)

  -- The loop of `run` over the workers, from the one with this number on: the listeners of the
  -- acceptor tasks that are spawned, and whether it is through.
  on_listener_built : ℕ → Does Listener → (Net → Ran) → Ran
  on_listener_built worker_id (ok l, n) k = let (r, (ls, n')) = k n in (r, (l ∷ ls, n'))
  on_listener_built worker_id (err e, n) k = (
    err (context (codes "worker " ++ format_usize worker_id ++ codes " failed to bind") ∷ e),
    ([], n),
  )
  on_listener_built worker_id (panic, n) k = (panic, ([], n))
  on_listener_built worker_id (out_of_fuel, n) k = (out_of_fuel, ([], n))

  unfoldable pub spawn_workers : ℕ → ℕ → ℕ → Net → Ran
  unfolding on_listener_built
  spawn_workers zero worker_id port n = (ok tt, ([], n))
  spawn_workers (suc count) worker_id port n =
      on_listener_built worker_id (build_listener port n)
        λ m. spawn_workers count (suc worker_id) port m

-- what an acceptor task does
pub data Step (Connection : Type 0) : Type 0 where
  -- the task of a connection, `Client::handle`
  spawn : Connection → Step Connection
  sleep : ℕ → Step Connection

-- `accept_loop`, over what `accept` comes to, one call after another
unfoldable pub accept_loop :
    {Connection : Type 0} → List (Called Connection) → List (Step Connection)
accept_loop [] = []
accept_loop (done c ∷ cs) = spawn c ∷ accept_loop cs
accept_loop (refused e ∷ cs) = sleep 10 ∷ accept_loop cs

pub record Server (dm : DashMap) : Type 0 where
  pub addr : ℕ
  pub db : Db dm

module _ (dm : DashMap) (fs : FileSystem) (sys : Sockets) where
  -- the port that was found, for the store that was loaded
  with_db : Db dm → Does sys ℕ → Does sys (Server dm)
  with_db db (ok port, n) = (ok (record { addr = port; db = db }), n)
  with_db db (err e, n) = (err e, n)
  with_db db (panic, n) = (panic, n)
  with_db db (out_of_fuel, n) = (out_of_fuel, n)

  on_db : Result Bytes (Db dm) → sys.Net → (Db dm → Does sys (Server dm)) → Does sys (Server dm)
  on_db (ok db) n k = k db
  on_db (err e) n k = (panic, n)
  on_db panic n k = (panic, n)
  on_db out_of_fuel n k = (out_of_fuel, n)

  -- There are 2^16 ports to try.
  unfoldable pub new : Bool → (ℕ → Now) → fs.Disk → ℕ → sys.Net → Does sys (Server dm)
  unfolding with_db on_db
  new checks clock d port n =
      on_db (Snapshot.new dm fs clock d) n λ db. with_db db (find_port sys checks (2 ^ 16) port n)

  -- `run`, up to the wait for the acceptors, with as many workers as there are processors
  unfoldable pub run : ℕ → Server dm → sys.Net → Ran sys
  run num_cpus server n = spawn_workers sys num_cpus 0 server.addr n

  on_server : ℕ → Does sys (Server dm) → Ran sys
  unfolding run
  on_server num_cpus (ok server, n) = run num_cpus server n
  on_server num_cpus (err e, n) = (err e, ([], n))
  on_server num_cpus (panic, n) = (panic, ([], n))
  on_server num_cpus (out_of_fuel, n) = (out_of_fuel, ([], n))

  unfoldable pub main : Bool → (ℕ → Now) → ℕ → List Bytes → fs.Disk → sys.Net → Ran sys
  unfolding on_server
  main checks clock num_cpus args d n = on_server num_cpus (new checks clock d (parse_args args) n)
