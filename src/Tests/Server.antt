-- ===== src/Tests/Server.antt =====
-- A start of the program on a system in which some ports are held.
use ember.Prelude.{
  ℕ, ◌≤◌, ◌<◌, ◌≡◌, refl, Bool, true, false, List, [], ◌∷◌, ◌==◌, ◌||◌, arith, length, ok, panic,
}
use ember.Text.{codes}
use ember.Database.Map.{assoc_map, lookup}
use ember.Database.Core.{new_in_memory}
use ember.Rdb.File.{load_rdb}
use ember.Snapshot as Snapshot
use ember.Start.{parse_args, parse_from}
use ember.Server.{Called, done, refused, addr_in_use, Sockets, find_port, main}
use ember.Server.Listener.{IsHealthy}
use ember.Server.Port.{find_port_first, find_port_exhausted}
use ember.Server.Workers.{main_listens}
use ember.Tests.Disk.{volume, empty_volume}
use ember.Tests.Files.{loading}

abbrev held : ℕ → List ℕ → Bool
held p [] = false
held p (q ∷ qs) = q == p || held p qs

-- what `bind` comes to
abbrev bound : Bool → Called Unit
bound true = refused addr_in_use
bound false = done tt

abbrev system : Sockets
system = record {
  Net = List ℕ;
  Socket = Unit;
  Listener = Unit;
  socket = λ n. (done tt, n);
  set_reuse_port = λ b s n. (done tt, n);
  set_reuse_address = λ b s n. (done tt, n);
  set_nonblocking = λ b s n. (done tt, n);
  bind = λ port s n. (bound (held port n), n);
  listen = λ b s n. (done tt, n);
  from_std = λ s n. (done tt, n);
  close = λ s n. n;
  close_listener = λ l n. n;
}

bound-free : (b : Bool) → b ≡ false → bound b ≡ done tt
bound-free false e = refl
bound-free true e = absurd cc

bound-held : (b : Bool) → b ≡ true → bound b ≡ refused addr_in_use
bound-held true e = refl
bound-held false e = absurd cc

system-IsHealthy : IsHealthy system held
system-IsHealthy = record {
  socket_done = λ n. (tt, refl);
  socket_held = λ n p. refl;
  reuse_port_done = λ b s n. refl;
  reuse_port_held = λ b s n p. refl;
  reuse_address_done = λ b s n. refl;
  reuse_address_held = λ b s n p. refl;
  nonblocking_done = λ b s n. refl;
  nonblocking_held = λ b s n p. refl;
  bind_done = λ port s n e. bound-free (held port n) e;
  bind_refused = λ port s n e. bound-held (held port n) e;
  bind_held = λ port s n p. refl;
  listen_done = λ b s n. refl;
  listen_held = λ b s n p. refl;
  from_std_done = λ s n. (tt, refl);
  from_std_held = λ s n p. refl;
  close_held = λ s n p. refl;
  close_listener_held = λ l n p. refl;
}

-- 6379 and 6380 are held
abbrev busy : List ℕ
busy = 6379 ∷ 6380 ∷ []

busy-held : (q : ℕ) → 6379 ≤ q → q < 6381 → held q busy ≡ true
busy-held q lo hi = ground arith

find_port_first_example : (find_port system true 3 6379 busy).0 ≡ ok 6381
find_port_first_example =
    find_port_first system held system-IsHealthy true 3 6379 6381 busy (omega arith) (omega arith)
      (omega arith) busy-held refl

last-held : (q : ℕ) → 65535 ≤ q → q ≤ 65535 → held q (65535 ∷ []) ≡ true
last-held q lo hi = ground arith

find_port_exhausted_example : (find_port system true 1 65535 (65535 ∷ [])).0 ≡ panic
find_port_exhausted_example =
    find_port_exhausted system held system-IsHealthy 1 65535 (65535 ∷ []) (omega arith)
      (omega arith) last-held

nothing_saved : Snapshot.new assoc_map volume loading empty_volume ≡ ok (new_in_memory assoc_map)
unfolding Snapshot.new Snapshot.from_iter load_rdb lookup new_in_memory
nothing_saved = refl

default_args : parse_args (codes "ember" ∷ []) ≡ 6379
unfolding parse_args parse_from
default_args = refl

main_listens_example :
    let (r, (listeners, _)) =
      main assoc_map volume system true loading 2 (codes "ember" ∷ []) empty_volume busy in
    (r ≡ ok tt) × (length listeners ≡ 2)
main_listens_example =
    main_listens system held system-IsHealthy assoc_map volume true loading 2 (codes "ember" ∷ [])
      empty_volume busy (new_in_memory assoc_map) 6381 nothing_saved (omega (arith, default_args))
      (omega arith) (λ q lo hi. busy-held q (omega (arith, default_args, lo)) hi) refl
