-- ===== src/Io.antt =====
-- src/io-posix.c with HAVE_GETADDRINFO: the transport over sockets. The system's calls are a
-- parameter, on a world. A port has at most five digits, so that `port_str` holds it.
pub mod Send
pub mod Connect
use iksemel.Base.{
  ℕ, zero, suc, Bool, true, false, if◌then◌else◌, Option, none, some, List, [], ◌∷◌, Bytes, length,
  drop,
}
use iksemel.Sax.Types.{iks_ok}
use iksemel.Stream.Types.{iks_net_noconn, iks_net_rwerr, Received, broken, got}

abbrev pub iks_net_nodns : ℕ
iks_net_nodns = 4

abbrev pub iks_net_nosock : ℕ
iks_net_nosock = 5

-- how `send` ends: so many bytes are sent, EAGAIN or EINTR, or another error
pub data Sent : Type 0 where
  sent : ℕ → Sent
  send_again send_failed : Sent

-- how `recv` ends
pub data Taken : Type 0 where
  took : Bytes → Taken
  recv_again recv_failed : Taken

-- The system: `getaddrinfo` gives the addresses of a host and a port, `socket` and `connect` get one
-- of them, and `select` says whether the socket can be read within the timeout.
pub record Sys (W : Type 0) : Type 0 where
  pub getaddrinfo : Bytes → ℕ → W → Option (List ℕ) × W
  pub socket : ℕ → W → Option ℕ × W
  pub connect : ℕ → ℕ → W → Bool × W
  pub send : ℕ → Bytes → W → Sent × W
  pub select : ℕ → Option ℕ → W → Bool × W
  pub recv : ℕ → ℕ → W → Taken × W
  pub close : ℕ → W → W

module _ {W : Type 0} (sys : Sys W) where
  unfoldable pub io_close : ℕ → W → W
  io_close sock w = sys.close sock w

  -- `connect` on a new socket, which is closed where it fails, before the loop goes on
  unfoldable pub by_connect : ℕ → (W → (ℕ × Option ℕ) × W) → Bool × W → (ℕ × Option ℕ) × W
  unfolding io_close
  by_connect s next (true, w) = ((iks_net_noconn, some s), w)
  by_connect s next (false, w) = next (io_close s w)

  -- a round of the loop behind `socket`
  unfoldable pub by_socket : ℕ → (ℕ → W → (ℕ × Option ℕ) × W) → Option ℕ × W → (ℕ × Option ℕ) × W
  unfolding by_connect
  by_socket a next (none, w) = next iks_net_nosock w
  by_socket a next (some s, w) = by_connect s (next iks_net_noconn) (sys.connect s a w)

  -- The loop over the addresses, with the error so far: the error, and a socket that is connected.
  unfoldable pub try_addresses : ℕ → List ℕ → W → (ℕ × Option ℕ) × W
  unfolding by_socket
  try_addresses err [] w = ((err, none), w)
  try_addresses err (a ∷ addrs) w = by_socket a (λ e w'. try_addresses e addrs w') (sys.socket a w)

  -- behind the loop: the error code, and the socket if it is set
  abbrev pub connect_result : (ℕ × Option ℕ) × W → (ℕ × Option ℕ) × W
  connect_result ((err, none), w) = ((err, none), w)
  connect_result ((err, some s), w) = ((iks_ok, some s), w)

  -- behind `getaddrinfo`
  unfoldable pub by_host : Option (List ℕ) × W → (ℕ × Option ℕ) × W
  unfolding try_addresses
  by_host (none, w) = ((iks_net_nodns, none), w)
  by_host (some addrs, w) = connect_result (try_addresses 0 addrs w)

  unfoldable pub io_connect : Bytes → ℕ → W → (ℕ × Option ℕ) × W
  unfolding by_host
  io_connect server port w = by_host (sys.getaddrinfo server port w)

  -- `io_send`, with fuel for the calls of `send`; `none` where it is used up
  unfoldable pub io_send : ℕ → ℕ → Bytes → W → Option (ℕ × W)
  io_send fuel sock [] w = some (iks_ok, w)
  io_send zero sock (c ∷ cs) w = none
  io_send (suc fuel) sock (c ∷ cs) w =
      let (r, w1) = sys.send sock (c ∷ cs) w in
      elim r [
        | sent n ↦ io_send fuel sock (drop n (c ∷ cs)) w1
        | send_again ↦ io_send fuel sock (c ∷ cs) w1
        | send_failed ↦ some (iks_net_rwerr, w1)
      ]

  -- the loop around `recv`; an end of the stream is an error, too
  unfoldable pub recv_loop : ℕ → ℕ → ℕ → W → Option (Received × W)
  recv_loop zero sock room w = none
  recv_loop (suc fuel) sock room w =
      let (r, w1) = sys.recv sock room w in
      elim r [
        | took bytes ↦ elim bytes [ [] ↦ some (broken, w1) | b ∷ bs ↦ some (got (b ∷ bs), w1) ]
        | recv_again ↦ recv_loop fuel sock room w1
        | recv_failed ↦ some (broken, w1)
      ]

  unfoldable pub io_recv : ℕ → ℕ → ℕ → Option ℕ → W → Option (Received × W)
  unfolding recv_loop
  io_recv fuel sock room timeout w =
      let (ready, w1) = sys.select sock timeout w in
      if ready then recv_loop fuel sock room w1 else some (got [], w1)
