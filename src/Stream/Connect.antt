-- ===== src/Stream/Connect.antt =====
-- Streams as the client sees them: `iks_stream_new`, the connecting functions, and those that read
-- or set a field.
use iksemel.Base.{ℕ, true, false, Option, none, some, Bytes}
use iksemel.Sax.Types.{iks_ok, iks_nomem, Parser}
use iksemel.Sax.Parse.{sax_extend, parser_reset, iks_user_data}
use iksemel.Iks.Heap.{
  Ptr, Run, fault, out_of_fuel, ok, Cmd, pure, crash, and_then, if_null, request,
}
use iksemel.Stream.Types.{
  iks_net_notsupp, LogHook, Transport, StreamData, Conn, Act, return, ◌>>=◌, ◌>>◌, on_heap, ask,
  put, outside, if_ok, Outside,
}
use iksemel.Stream.Send.{iks_send_header}
use iksemel.Stream.Hooks.{stream_env}

-- the stream in memory that is cleared, with the fields that `iks_stream_new` sets
abbrev pub new_stream : {W : Type 0} → ℕ → Bytes → Ptr → StreamData W
new_stream s name_space user_data = record {
  s = s;
  trans = none;
  name_space = name_space;
  user_data = user_data;
  server = none;
  log_hook = none;
  current = none;
  buf = none;
  sock = 0;
  foreign = false;
  try_secure = false;
  secure = false;
  auth_username = none;
  auth_pass = none;
  tlsdata = none;
}

abbrev pub conn : {W : Type 0} → StreamData W → W → Conn W
conn d w = record { stream = d; world = w }

-- what a stream is to the client
abbrev pub Stream : Type 0 → Type 0
Stream W = Parser (Run (Conn W))

-- `iks_stream_new`, where `size` is `sizeof (iksparser)`. Without memory for the data, `memset`
-- writes through NULL; without memory for the parser, `data->prs` is NULL, and so is the result.
unfoldable pub iks_stream_new :
    {W : Type 0} → Outside W → ℕ → Bytes → Ptr → W → Cmd (Option (Stream W))
unfolding request sax_extend
iks_stream_new o size name_space user_data w h = and_then (request h) λ s.
    if_null s (pure none) λ a g. and_then (request g) λ r.
      if_null r crash
        λ _ f. ok (sax_extend o.malloc size (ok (conn (new_stream a name_space user_data) w) f)) f

-- a function of the client's side that gets the stream: what it returns, and the stream behind it
unfoldable pub call : {W A : Type 0} → Act W A → Stream W → Option A × Stream W
unfolding iks_user_data
call act p = elim (and_then (iks_user_data p) act) [
  | ok r h ↦ (some r.0, record p { user_data = ok r.1 h })
  | fault ↦ (none, record p { user_data = fault })
  | out_of_fuel ↦ (none, record p { user_data = out_of_fuel })
]

unfoldable pub iks_stream_user_data : {W : Type 0} → Act W Ptr
iks_stream_user_data = do d ← ask; return d.user_data

unfoldable pub iks_set_log_hook : {W : Type 0} → Option (LogHook W) → Act W (Unit {0})
iks_set_log_hook hook = put λ d. record d { log_hook = hook }

-- the buffer is asked for once; the client's next step, or IKS_NOMEM
unfoldable pub with_buffer : {W : Type 0} → Act W ℕ → Act W ℕ
unfolding request
with_buffer next = do
  d ← ask
  elim d.buf [
    | some b ↦ next
    | none ↦ do
      r ← on_heap request
      put λ e. record e { buf = r }
      elim r [ none ↦ return iks_nomem | some b ↦ next ]
  ]

-- a result with the socket, as the code and the socket
abbrev pub with_socket : {W : Type 0} → ℕ × ℕ × W → (ℕ × ℕ) × W
with_socket (e, sock, after) = ((e, sock), after)

-- what a call of `connect` or `connect_async` is followed by
unfoldable pub connected : {W : Type 0} → (W → ℕ × ℕ × W) → Transport W → Act W ℕ → Act W ℕ
connected dial t next = with_buffer do
  r ← outside λ w. with_socket (dial w)
  put λ d. record d { sock = r.1 }
  if_ok r.0 do put λ d. record d { trans = some t }; next

unfoldable pub iks_connect_with :
    {W : Type 0} → Outside W → Bytes → ℕ → Bytes → Transport W → Act W ℕ
unfolding connected iks_send_header
iks_connect_with o server port server_name t = elim t.connect [
  | none ↦ return iks_net_notsupp
  | some dial ↦ connected (dial server port) t (iks_send_header o server_name)
]

unfoldable pub iks_connect_via : {W : Type 0} → Outside W → Bytes → ℕ → Bytes → Act W ℕ
unfolding iks_connect_with
iks_connect_via o server port server_name = elim o.default_transport [
  | none ↦ return iks_net_notsupp
  | some t ↦ iks_connect_with o server port server_name t
]

unfoldable pub iks_connect_tcp : {W : Type 0} → Outside W → Bytes → ℕ → Act W ℕ
unfolding iks_connect_with
iks_connect_tcp o server port = elim o.default_transport [
  | none ↦ return iks_net_notsupp
  | some t ↦ iks_connect_with o server port server t
]

unfoldable pub iks_connect_async_with : {W : Type 0} → Bytes → ℕ → Bytes → Transport W → Act W ℕ
unfolding connected
iks_connect_async_with server port server_name t = elim t.connect_async [
  | none ↦ return iks_net_notsupp
  | some dial ↦
      connected (dial server server_name port) t
        do put λ d. record d { server = some server_name }; return iks_ok
]

unfoldable pub iks_connect_async : {W : Type 0} → Outside W → Bytes → ℕ → Act W ℕ
unfolding iks_connect_async_with
iks_connect_async o server port = elim o.default_transport [
  | none ↦ return iks_net_notsupp
  | some t ↦ iks_connect_async_with server port server t
]

unfoldable pub iks_connect_fd : {W : Type 0} → Outside W → ℕ → Act W ℕ
unfolding with_buffer
iks_connect_fd o fd = elim o.default_transport [
  | none ↦ return iks_net_notsupp
  | some t ↦
      with_buffer do put λ d. record d { sock = fd; foreign = true; trans = some t }; return iks_ok
]

unfoldable pub iks_fd : {W : Type 0} → Act W ℕ
iks_fd = do d ← ask; return d.sock

-- `iks_disconnect`
unfoldable pub iks_disconnect : {W : Type 0} → Outside W → ℕ → Stream W → Stream W
unfolding stream_env parser_reset
iks_disconnect o fuel p = parser_reset (stream_env o fuel) p
