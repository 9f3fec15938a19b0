-- ===== src/Server/Workers.antt =====
-- `Server::run` (server.rs) and `main`, up to the wait for the acceptors.
use ember.Prelude.{
  ℕ, zero, suc, ◌≤◌, ◌<◌, ◌^◌, ◌≡◌, refl, ap, ◌∙◌, Bool, true, false, List, ◌∷◌, length, arith, ok,
}
use ember.Text.{Bytes}
use ember.Text.Decimal.{max_u16}
use ember.Database.Map.{DashMap}
use ember.Database.Core.{Db}
use ember.Rdb.{Now}
use ember.Rdb.File.{FileSystem}
use ember.Snapshot as Snapshot
use ember.Start.{parse_args}
use ember.Server.{
  Sockets, Does, Ran, on_listener_built, spawn_workers, with_db, on_db, new, run, on_server, main,
}
use ember.Server.Listener.{IsHealthy, Listens, listens, build_listener-Listens}
use ember.Server.Port.{Finds, finds, find_port-Finds}

module _ (sys : Sockets) (held : ℕ → sys.Net → Bool) (healthy : IsHealthy sys held) where
  -- A run that spawned this many acceptors.
  data Spawns (count : ℕ) : Ran sys → Type 0 where
    spawns :
        {ls : List sys.Listener} {m : sys.Net} → length ls ≡ count → Spawns count (ok tt, (ls, m))

  on_listener_built-Spawns :
      (worker_id port count : ℕ) (n : sys.Net) (r : Does sys sys.Listener) (k : sys.Net → Ran sys)
      → held port n ≡ false
      → Listens sys held healthy n r
      → ((m : sys.Net) → held port m ≡ false → Spawns count (k m))
      → Spawns (suc count) (on_listener_built sys worker_id r k)
  unfolding on_listener_built
  on_listener_built-Spawns worker_id port count n _ k free (listens {l} {m} h) ih =
      one_more l (k m) (ih m (h port ∙ free))
    where
      one_more :
          (l : sys.Listener) (r : Ran sys)
          → Spawns count r
          → Spawns (suc count) (let (x, (ls, n')) = r in (x, (l ∷ ls, n')))
      one_more l _ (spawns e) = spawns (ap (λ i. suc i) e)

  spawn_workers-Spawns :
      (count worker_id port : ℕ) (n : sys.Net)
      → held port n ≡ false
      → Spawns count (spawn_workers sys count worker_id port n)
  unfolding spawn_workers
  spawn_workers-Spawns zero worker_id port n free = spawns refl
  spawn_workers-Spawns (suc count) worker_id port n free =
      on_listener_built-Spawns worker_id port count n _ _ free
        (build_listener-Listens sys held healthy port n free)
        (λ m free'. spawn_workers-Spawns count (suc worker_id) port m free')

  module _ (dm : DashMap) (fs : FileSystem) where
    on_server-Spawns :
        (num_cpus p : ℕ) (n : sys.Net) (db : Db dm) (r : Does sys ℕ)
        → held p n ≡ false
        → Finds sys held healthy n p r
        → Spawns num_cpus (on_server dm fs sys num_cpus (with_db dm fs sys db r))
    unfolding on_server with_db run
    on_server-Spawns num_cpus p n db _ free (finds h) =
        spawn_workers-Spawns num_cpus 0 p _ (h p ∙ free)

    Spawns-counted :
        (count : ℕ) (r : Ran sys) → Spawns count r → (r.0 ≡ ok tt) × (length r.1.0 ≡ count)
    Spawns-counted count _ (spawns e) = (refl, e)

    main-Spawns :
        (checks : Bool) (clock : ℕ → Now) (num_cpus : ℕ) (args : List Bytes) (d : fs.Disk)
        (n : sys.Net) (db : Db dm) (p : ℕ)
        → Snapshot.new dm fs clock d ≡ ok db
        → parse_args args ≤ p
        → p ≤ max_u16
        → ((q : ℕ) → parse_args args ≤ q → q < p → held q n ≡ true)
        → held p n ≡ false
        → Spawns num_cpus (main dm fs sys checks clock num_cpus args d n)
    unfolding main new on_db
    main-Spawns checks clock num_cpus args d n db p loaded le top busy free = rw loaded (
        on_server-Spawns num_cpus p n db _ free (
          find_port-Finds sys held healthy checks (2 ^ 16) (parse_args args) p n le (omega arith)
            top busy free))

    -- On a system that refuses only to bind the ports that other programs hold, if one of the ports
    -- from that of the command line on is not held, and the snapshot loads: the program comes to
    -- wait for its acceptors, one for each processor.
    pub main_listens :
        (checks : Bool) (clock : ℕ → Now) (num_cpus : ℕ) (args : List Bytes) (d : fs.Disk)
        (n : sys.Net) (db : Db dm) (p : ℕ)
        → Snapshot.new dm fs clock d ≡ ok db
        → parse_args args ≤ p
        → p ≤ max_u16
        → ((q : ℕ) → parse_args args ≤ q → q < p → held q n ≡ true)
        → held p n ≡ false
        → let (r, (listeners, _)) = main dm fs sys checks clock num_cpus args d n in
          (r ≡ ok tt) × (length listeners ≡ num_cpus)
    main_listens checks clock num_cpus args d n db p loaded le top busy free =
        Spawns-counted num_cpus _
          (main-Spawns checks clock num_cpus args d n db p loaded le top busy free)
