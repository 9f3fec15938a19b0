-- ===== src/Server/Listener.antt =====
-- `build_listener` (server.rs) on a system that refuses nothing but a port that is held.
use ember.Prelude.{ℕ, ◌≡◌, refl, ◌∙◌, Bool, true, false, [], ◌∷◌, ok, err}
use ember.Text.{Bytes}
use ember.Server.{
  addr_in_use, other, io, context, Error, is_in_use, is_addr_in_use, Called, done, refused, Sockets,
  Does, backlog, on_socket, on_listener, configure, on_new_socket, build_listener,
}

-- A system that grants all calls, but to bind a port that another program holds; `held` says which.
pub record IsHealthy (sys : Sockets) (held : ℕ → sys.Net → Bool) : Type 0 where
  pub socket_done : (n : sys.Net) → (s : sys.Socket) × ((sys.socket n).0 ≡ done s)
  pub socket_held : (n : sys.Net) (p : ℕ) → held p (sys.socket n).1 ≡ held p n
  pub reuse_port_done :
      (b : Bool) (s : sys.Socket) (n : sys.Net) → (sys.set_reuse_port b s n).0 ≡ done tt
  pub reuse_port_held :
      (b : Bool) (s : sys.Socket) (n : sys.Net) (p : ℕ)
      → held p (sys.set_reuse_port b s n).1 ≡ held p n
  pub reuse_address_done :
      (b : Bool) (s : sys.Socket) (n : sys.Net) → (sys.set_reuse_address b s n).0 ≡ done tt
  pub reuse_address_held :
      (b : Bool) (s : sys.Socket) (n : sys.Net) (p : ℕ)
      → held p (sys.set_reuse_address b s n).1 ≡ held p n
  pub nonblocking_done :
      (b : Bool) (s : sys.Socket) (n : sys.Net) → (sys.set_nonblocking b s n).0 ≡ done tt
  pub nonblocking_held :
      (b : Bool) (s : sys.Socket) (n : sys.Net) (p : ℕ)
      → held p (sys.set_nonblocking b s n).1 ≡ held p n
  pub bind_done :
      (port : ℕ) (s : sys.Socket) (n : sys.Net)
      → held port n ≡ false
      → (sys.bind port s n).0 ≡ done tt
  pub bind_refused :
      (port : ℕ) (s : sys.Socket) (n : sys.Net)
      → held port n ≡ true
      → (sys.bind port s n).0 ≡ refused addr_in_use
  pub bind_held :
      (port : ℕ) (s : sys.Socket) (n : sys.Net) (p : ℕ) → held p (sys.bind port s n).1 ≡ held p n
  pub listen_done : (b : ℕ) (s : sys.Socket) (n : sys.Net) → (sys.listen b s n).0 ≡ done tt
  pub listen_held :
      (b : ℕ) (s : sys.Socket) (n : sys.Net) (p : ℕ) → held p (sys.listen b s n).1 ≡ held p n
  pub from_std_done :
      (s : sys.Socket) (n : sys.Net) → (l : sys.Listener) × ((sys.from_std s n).0 ≡ done l)
  pub from_std_held :
      (s : sys.Socket) (n : sys.Net) (p : ℕ) → held p (sys.from_std s n).1 ≡ held p n
  pub close_held : (s : sys.Socket) (n : sys.Net) (p : ℕ) → held p (sys.close s n) ≡ held p n
  pub close_listener_held :
      (l : sys.Listener) (n : sys.Net) (p : ℕ) → held p (sys.close_listener l n) ≡ held p n

module _ (sys : Sockets) (held : ℕ → sys.Net → Bool) (healthy : IsHealthy sys held) where
  open sys use {Net, Socket, Listener}

  -- `m` is a later state, in which the same ports are held
  abbrev pub Later : Net → Net → Type 0
  Later n m = (p : ℕ) → held p m ≡ held p n

  -- A listener on a port that was free, or an error that says that the port is held.
  pub data Listens (n : Net) : Does sys Listener → Type 0 where
    listens : {l : Listener} {m : Net} → Later n m → Listens n (ok l, m)

  pub data Refuses (n : Net) : Does sys Listener → Type 0 where
    refuses : {e : Error} {m : Net} → is_in_use e ≡ true → Later n m → Refuses n (err e, m)

  -- a step of the configuration that is granted
  on_socket-Listens :
      (n : Net) (why : Bytes) (s : Socket) (r : Called Unit × Net) (k : Net → Does sys Listener)
      → r.0 ≡ done tt
      → Listens n (k r.1)
      → Listens n (on_socket sys why s r k)
  unfolding on_socket
  on_socket-Listens n why s (done u, m) k e h = h
  on_socket-Listens n why s (refused x, m) k e h = absurd cc

  on_socket-goes_on :
      (n : Net) (why : Bytes) (s : Socket) (r : Called Unit × Net) (k : Net → Does sys Listener)
      → r.0 ≡ done tt
      → Refuses n (k r.1)
      → Refuses n (on_socket sys why s r k)
  unfolding on_socket
  on_socket-goes_on n why s (done u, m) k e h = h
  on_socket-goes_on n why s (refused x, m) k e h = absurd cc

  on_socket-Refuses :
      (n : Net) (why : Bytes) (s : Socket) (r : Called Unit × Net) (k : Net → Does sys Listener)
      → r.0 ≡ refused addr_in_use
      → Later n r.1
      → Refuses n (on_socket sys why s r k)
  unfolding on_socket is_in_use is_addr_in_use
  on_socket-Refuses n why s (done u, m) k e h = absurd cc
  on_socket-Refuses n why s (refused (other x), m) k e h = absurd cc
  on_socket-Refuses n why s (refused addr_in_use, m) k e h =
      refuses {e = context why ∷ io addr_in_use ∷ []} refl (λ p. healthy.close_held s m p ∙ h p)

  on_listener-Listens :
      (n : Net) (r : Called Listener × Net) (l : Listener)
      → r.0 ≡ done l
      → Later n r.1
      → Listens n (on_listener sys r)
  unfolding on_listener
  on_listener-Listens n (done l', m) l e h = listens h
  on_listener-Listens n (refused x, m) l e h = absurd cc

  module _ (port : ℕ) (s : Socket) (n n₀ : Net) where
    abbrev n₁ : Net
    n₁ = (sys.set_reuse_port true s n₀).1

    abbrev n₂ : Net
    n₂ = (sys.set_reuse_address true s n₁).1

    abbrev n₃ : Net
    n₃ = (sys.set_nonblocking true s n₂).1

    abbrev n₄ : Net
    n₄ = (sys.bind port s n₃).1

    abbrev n₅ : Net
    n₅ = (sys.listen backlog s n₄).1

    n₃-Later : Later n n₀ → Later n n₃
    n₃-Later h p =
        healthy.nonblocking_held true s n₂ p
        ∙ healthy.reuse_address_held true s n₁ p
        ∙ healthy.reuse_port_held true s n₀ p
        ∙ h p

    n₄-Later : Later n n₀ → Later n n₄
    n₄-Later h p = healthy.bind_held port s n₃ p ∙ n₃-Later h p

    configure-Listens : held port n ≡ false → Later n n₀ → Listens n (configure sys port s n₀)
    unfolding configure
    configure-Listens free h = on_socket-Listens n _ s _ _ (healthy.reuse_port_done true s n₀) (
        on_socket-Listens n _ s _ _ (healthy.reuse_address_done true s n₁) (
          on_socket-Listens n _ s _ _ (healthy.nonblocking_done true s n₂) (
            on_socket-Listens n _ s _ _ (healthy.bind_done port s n₃ (n₃-Later h port ∙ free)) (
              on_socket-Listens n _ s _ _ (healthy.listen_done backlog s n₄) (
                on_listener-Listens n _ (healthy.from_std_done s n₅).0
                  (healthy.from_std_done s n₅).1
                  (λ p.
                    healthy.from_std_held s n₅ p
                    ∙ healthy.listen_held backlog s n₄ p
                    ∙ n₄-Later h p))))))

    configure-Refuses : held port n ≡ true → Later n n₀ → Refuses n (configure sys port s n₀)
    unfolding configure
    configure-Refuses busy h = on_socket-goes_on n _ s _ _ (healthy.reuse_port_done true s n₀) (
        on_socket-goes_on n _ s _ _ (healthy.reuse_address_done true s n₁) (
          on_socket-goes_on n _ s _ _ (healthy.nonblocking_done true s n₂) (
            on_socket-Refuses n _ s _ _ (healthy.bind_refused port s n₃ (n₃-Later h port ∙ busy))
              (n₄-Later h))))

  on_new_socket-Listens :
      (port : ℕ) (n : Net) (r : Called Socket × Net) (s : Socket)
      → r.0 ≡ done s
      → held port n ≡ false
      → Later n r.1
      → Listens n (on_new_socket sys port r)
  unfolding on_new_socket
  on_new_socket-Listens port n (done s', m) s e free h = configure-Listens port s' n m free h
  on_new_socket-Listens port n (refused x, m) s e free h = absurd cc

  on_new_socket-Refuses :
      (port : ℕ) (n : Net) (r : Called Socket × Net) (s : Socket)
      → r.0 ≡ done s
      → held port n ≡ true
      → Later n r.1
      → Refuses n (on_new_socket sys port r)
  unfolding on_new_socket
  on_new_socket-Refuses port n (done s', m) s e busy h = configure-Refuses port s' n m busy h
  on_new_socket-Refuses port n (refused x, m) s e busy h = absurd cc

  pub build_listener-Listens :
      (port : ℕ) (n : Net) → held port n ≡ false → Listens n (build_listener sys port n)
  unfolding build_listener
  build_listener-Listens port n free =
      on_new_socket-Listens port n (sys.socket n) (healthy.socket_done n).0
        (healthy.socket_done n).1 free (λ p. healthy.socket_held n p)

  pub build_listener-Refuses :
      (port : ℕ) (n : Net) → held port n ≡ true → Refuses n (build_listener sys port n)
  unfolding build_listener
  build_listener-Refuses port n busy =
      on_new_socket-Refuses port n (sys.socket n) (healthy.socket_done n).0
        (healthy.socket_done n).1 busy (λ p. healthy.socket_held n p)
