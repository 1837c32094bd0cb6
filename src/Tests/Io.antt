-- ===== src/Tests/Io.antt =====
-- A system with a host that has two addresses, of which only the second answers, and with a wire
-- that takes one byte at a time, once the interrupts are over.
use iksemel.Base.{
  ℕ, zero, suc, ◌+◌, ◌≤◌, ◌<◌, ◌==◌, true, some, List, [], ◌∷◌, ◌++◌, Bytes, codes, length, take,
  ◌≡◌, refl, ap, arith,
}
use iksemel.Io.{
  Sys, Sent, sent, send_again, send_failed, took, io_close, by_connect, by_socket, try_addresses,
  by_host, io_connect, io_send,
}
use iksemel.Io.Send.{Wire, Outcome, io_send-Outcome}
use iksemel.Io.Connect.{Sockets, with_socket, io_connect-open}

record World : Type 0 where
  sockets : List ℕ
  out : Bytes
  interrupts : ℕ

abbrev rest_of : List ℕ → List ℕ
rest_of [] = []
rest_of (s ∷ rest) = rest

abbrev one_byte : ℕ → Bytes → World → Sent × World
one_byte zero text w = (sent 1, record w { out = w.out ++ take 1 text; interrupts = 0 })
one_byte (suc n) text w = (send_again, record w { interrupts = n })

abbrev small : Sys World
small = record {
  getaddrinfo = λ server port w. (some (1 ∷ 2 ∷ []), w);
  socket = λ a w. (some (10 + a), record w { sockets = (10 + a) ∷ w.sockets });
  connect = λ s a w. (a == 2, w);
  send = λ s text w. one_byte w.interrupts text w;
  select = λ s timeout w. (true, w);
  recv = λ s room w. (took (codes "x"), w);
  close = λ s w. record w { sockets = rest_of w.sockets };
}

abbrev idle : World
idle = record { sockets = 5 ∷ []; out = codes "a"; interrupts = 2 }

byte_sent :
    (i : ℕ) (c : ℕ) (cs : Bytes) (w : World) (n : ℕ) (after : World)
    → one_byte i (c ∷ cs) w ≡ (sent n, after)
    → (after.out ≡ w.out ++ take n (c ∷ cs))
      × (0 < n)
      × (n ≤ length (c ∷ cs))
      × (after.interrupts ≤ i)
byte_sent zero c cs w n after e = grind arith
byte_sent (suc i) c cs w n after e = cc

byte_waits :
    (i c : ℕ) (cs : Bytes) (w after : World)
    → one_byte i (c ∷ cs) w ≡ (send_again, after)
    → (after.out ≡ w.out) × (after.interrupts < i)
byte_waits zero c cs w after e = cc
byte_waits (suc i) c cs w after e = grind arith

byte_fails :
    (i c : ℕ) (cs : Bytes) (w after : World)
    → one_byte i (c ∷ cs) w ≡ (send_failed, after)
    → after.out ≡ w.out
byte_fails zero c cs w after e = cc
byte_fails (suc i) c cs w after e = cc

small_wire : Wire small 12
small_wire = record {
  out = λ w. w.out;
  patience = λ w. w.interrupts;
  sends = λ c cs w n after e. byte_sent w.interrupts c cs w n after e;
  waits = λ c cs w after e. byte_waits w.interrupts c cs w after e;
  fails = λ c cs w after e. byte_fails w.interrupts c cs w after e;
}

io_send-Outcome_example :
    Outcome small_wire.out (codes "bcd") idle (io_send small 5 12 (codes "bcd") idle)
unfolding small_wire
io_send-Outcome_example = io_send-Outcome small 12 small_wire 5 (codes "bcd") idle (omega arith)

all_sent :
    io_send small 5 12 (codes "bcd") idle
    ≡ some (0, record idle { out = codes "abcd"; interrupts = 0 })
unfolding io_send
all_sent = refl

small_sockets : Sockets small
small_sockets = record {
  open_ones = λ w. w.sockets;
  opens = λ a w after s e. grind arith;
  opens_none = λ a w after e. cc;
  connects = λ s a w. refl;
  closes = λ s w rest e. ap rest_of e;
  asks = λ server port w. refl;
}

io_connect-open_example :
    small_sockets.open_ones (io_connect small (codes "h") 5222 idle).1
    ≡ with_socket (io_connect small (codes "h") 5222 idle).0.1 (5 ∷ [])
unfolding small_sockets
io_connect-open_example = io_connect-open small small_sockets (codes "h") 5222 idle

second_connected :
    io_connect small (codes "h") 5222 idle ≡ ((0, some 12), record idle { sockets = 12 ∷ 5 ∷ [] })
unfolding io_connect by_host try_addresses by_socket by_connect io_close
second_connected = refl
