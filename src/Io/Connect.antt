-- ===== src/Io/Connect.antt =====
-- Which sockets `io_connect` of src/io-posix.c leaves open.
use iksemel.Base.{
  ℕ, Bool, true, false, Option, none, some, List, [], ◌∷◌, Bytes, ◌≡◌, refl, ◌∙◌, ap,
}
use iksemel.Io.{
  Sys, iks_net_nosock, io_close, by_connect, by_socket, try_addresses, connect_result, by_host,
  io_connect,
}
use iksemel.Stream.Types.{iks_net_noconn}

-- The documented behaviour of the system: `socket` opens one more socket, `close` of the last one closes
-- it, and the other calls open and close none.
pub record Sockets {W : Type 0} (sys : Sys W) : Type 0 where
  pub open_ones : W → List ℕ
  pub opens :
      (a : ℕ) (w after : W) (s : ℕ)
      → sys.socket a w ≡ (some s, after)
      → open_ones after ≡ s ∷ open_ones w
  pub opens_none :
      (a : ℕ) (w after : W) → sys.socket a w ≡ (none, after) → open_ones after ≡ open_ones w
  pub connects : (s a : ℕ) (w : W) → open_ones (sys.connect s a w).1 ≡ open_ones w
  pub closes :
      (s : ℕ) (w : W) (rest : List ℕ) → open_ones w ≡ s ∷ rest → open_ones (sys.close s w) ≡ rest
  pub asks :
      (server : Bytes) (port : ℕ) (w : W)
      → open_ones (sys.getaddrinfo server port w).1 ≡ open_ones w

-- the sockets that are open: the one that is returned, and those that were open before
abbrev pub with_socket : Option ℕ → List ℕ → List ℕ
with_socket none before = before
with_socket (some s) before = s ∷ before

module _ {W : Type 0} (sys : Sys W) (sockets : Sockets sys) where
  open sockets use {open_ones, opens, opens_none, connects, closes, asks}

  abbrev Leaves : List ℕ → (ℕ × Option ℕ) × W → Type 0
  Leaves before r = open_ones r.1 ≡ with_socket r.0.1 before

  by_connect-Leaves :
      (s : ℕ) (next : W → (ℕ × Option ℕ) × W) (before : List ℕ) (r : Bool × W)
      → open_ones r.1 ≡ s ∷ before
      → ((w : W) → open_ones w ≡ before → Leaves before (next w))
      → Leaves before (by_connect sys s next r)
  unfolding by_connect io_close
  by_connect-Leaves s next before (true, w) e k = e
  by_connect-Leaves s next before (false, w) e k = k (sys.close s w) (closes s w before e)

  by_socket-Leaves :
      (a : ℕ) (next : ℕ → W → (ℕ × Option ℕ) × W) (w : W) (r : Option ℕ × W)
      → sys.socket a w ≡ r
      → ((e : ℕ) (w' : W) → open_ones w' ≡ open_ones w → Leaves (open_ones w) (next e w'))
      → Leaves (open_ones w) (by_socket sys a next r)
  unfolding by_socket
  by_socket-Leaves a next w (none, w1) e k = k iks_net_nosock w1 (opens_none a w w1 e)
  by_socket-Leaves a next w (some s, w1) e k =
      by_connect-Leaves s (next iks_net_noconn) (open_ones w) (sys.connect s a w1)
        (connects s a w1 ∙ opens a w w1 s e) (k iks_net_noconn)

  try_addresses-Leaves :
      (err : ℕ) (addrs : List ℕ) (w : W) → Leaves (open_ones w) (try_addresses sys err addrs w)
  unfolding try_addresses
  try_addresses-Leaves err [] w = refl
  try_addresses-Leaves err (a ∷ addrs) w =
      by_socket-Leaves a (λ e w'. try_addresses sys e addrs w') w (sys.socket a w) refl
        λ e w' same.
          try_addresses-Leaves e addrs w' ∙ ap (with_socket (try_addresses sys e addrs w').0.1) same

  connect_result-Leaves :
      (before : List ℕ) (r : (ℕ × Option ℕ) × W)
      → Leaves before r
      → Leaves before (connect_result sys r)
  connect_result-Leaves before ((err, none), w) k = k
  connect_result-Leaves before ((err, some s), w) k = k

  by_host-Leaves :
      (before : List ℕ) (r : Option (List ℕ) × W)
      → open_ones r.1 ≡ before
      → Leaves before (by_host sys r)
  unfolding by_host
  by_host-Leaves before (none, w) e = e
  by_host-Leaves before (some addrs, w) e =
      connect_result-Leaves before (try_addresses sys 0 addrs w)
        (try_addresses-Leaves 0 addrs w ∙ ap (with_socket (try_addresses sys 0 addrs w).0.1) e)

  -- `io_connect` leaves the socket open that it returns, and no other that it opened: where it
  -- fails, the open ones are those that were open before.
  pub io_connect-open :
      (server : Bytes) (port : ℕ) (w : W)
      → let r = io_connect sys server port w in open_ones r.1 ≡ with_socket r.0.1 (open_ones w)
  unfolding io_connect
  io_connect-open server port w =
      by_host-Leaves (open_ones w) (sys.getaddrinfo server port w) (asks server port w)
