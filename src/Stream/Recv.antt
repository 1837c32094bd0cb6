-- ===== src/Stream/Recv.antt =====
-- `iks_recv` of src/stream.c.
use iksemel.Base.{
  ℕ, zero, suc, ◌+◌, ◌-◌, Bool, true, false, leb, if◌then◌else◌, Option, none, some, [], ◌∷◌, Bytes,
  length,
}
use iksemel.Sax.Types.{iks_ok, Parser, Outcome, ◌>>=◌ as if_parsed}
use iksemel.Sax.Types
use iksemel.Sax.Parse.{iks_parse, iks_user_data}
use iksemel.Iks.Heap.{Run, fault, out_of_fuel, ok, and_then}
use iksemel.Stream.Types.{
  iks_net_noconn, iks_net_rwerr, Received, broken, got, Conn, Act, return, broken_off, ◌>>=◌, ◌>>◌,
  ask, outside, nothing, Outside,
}
use iksemel.Stream.Send.{log}
use iksemel.Stream.Hooks.{stream_env}
use iksemel.Stream.Connect.{Stream}

-- NET_IO_BUF_SIZE
abbrev pub net_io_buf_size : ℕ
net_io_buf_size = 4096

-- the NUL behind the bytes in the buffer, which may not exist
unfoldable pub end_buffer : {W : Type 0} → Bytes → Act W (Unit {0})
end_buffer bytes = do
  d ← ask
  elim d.buf [
    | none ↦ broken_off
    | some b ↦ if leb (length bytes + 1) net_io_buf_size then nothing else broken_off
  ]

-- what was read, in the buffer and given to the log hook
unfoldable pub keep_bytes : {W : Type 0} → Received → Act W Received
unfolding end_buffer log
keep_bytes broken = return broken
keep_bytes (got []) = return (got [])
keep_bytes (got (b ∷ bs)) = do end_buffer (b ∷ bs); log (b ∷ bs) true; return (got (b ∷ bs))

-- a round of the loop, up to the parser
unfoldable pub receive : {W : Type 0} → Outside W → Option ℕ → Act W Received
unfolding keep_bytes
receive o timeout = do
  d ← ask
  r ←
      if d.secure
      then outside (o.tls.recv d.tlsdata (net_io_buf_size - 1) timeout)
      else elim d.trans [
        | none ↦ broken_off
        | some t ↦ outside (t.recv d.sock (net_io_buf_size - 1) timeout)
      ]
  keep_bytes r

-- `!data->trans` is false
unfoldable pub has_trans : {W : Type 0} → Act W Bool
has_trans = do d ← ask; return (elim d.trans [ none ↦ false | some t ↦ true ])

-- an action between two calls of the parser
abbrev pub between :
    {W A : Type 0}
    → Stream W
    → Act W A
    → (A → Stream W → Outcome (Run (Conn W)) (Stream W))
    → Outcome (Run (Conn W)) (Stream W)
between p act next = elim (and_then (iks_user_data p) act) [
  | fault ↦ Types.fault
  | out_of_fuel ↦ Types.out_of_fuel
  | ok r h ↦ next r.0 (record p { user_data = ok r.1 h })
]

-- `iks_recv`, with fuel for the rounds of its loop
unfoldable pub iks_recv :
    {W : Type 0} → Outside W → ℕ → ℕ → Stream W → Option ℕ → Outcome (Run (Conn W)) (Stream W)
unfolding receive has_trans iks_parse stream_env iks_user_data
iks_recv o fuel zero p timeout = Types.out_of_fuel
iks_recv o fuel (suc rounds) p timeout = between p (receive o timeout) λ r p1. elim r [
  | broken ↦ Types.err iks_net_rwerr p1
  | got bytes ↦ elim bytes [
    | [] ↦ Types.ok p1
    | b ∷ bs ↦ if_parsed (iks_parse (stream_env o fuel) p1 (some (b ∷ bs)) (length (b ∷ bs))) λ p2.
        between p2 has_trans λ t p3. elim t [
          | false ↦ Types.err iks_net_noconn p3
          | true ↦ iks_recv o fuel rounds p3 (some 0)
        ]
  ]
]
