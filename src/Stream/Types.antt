-- ===== src/Stream/Types.antt =====
-- The state of src/stream.c: `struct stream_data`, the transport and the TLS layer that it calls,
-- and actions on them. The world is what lies outside: sockets, the random source and the client's
-- own state.
use iksemel.Base.{ℕ, zero, suc, Bool, Option, Bytes}
use iksemel.Iks.Heap.{Ptr, Cmd, pure, crash, and_then}

-- `enum iksneterror`
abbrev pub iks_net_noconn : ℕ
iks_net_noconn = 6

abbrev pub iks_net_rwerr : ℕ
iks_net_rwerr = 7

abbrev pub iks_net_notsupp : ℕ
iks_net_notsupp = 8

abbrev pub iks_net_tlsfail : ℕ
iks_net_tlsfail = 9

-- `enum iksnodetype`
pub data Event : Type 0 where
  iks_node_start iks_node_normal iks_node_error iks_node_stop : Event

-- `enum ikssasltype`, and any other number
pub data SaslType : Type 0 where
  iks_sasl_plain iks_sasl_digest_md5 : SaslType
  other_sasl : ℕ → SaslType

-- what `recv` returns: a negative number, or the bytes that it has stored, which may be none
pub data Received : Type 0 where
  broken : Received
  got : Bytes → Received

-- `ikstransport`. A socket is a number, and a function returns its error code, 0 for IKS_OK, with
-- the world changed. `connect` and `connect_async` also set the socket; `recv` gets the room in the
-- buffer and a timeout, `none` for one that does not end.
pub record Transport (W : Type 0) : Type 0 where
  pub connect : Option (Bytes → ℕ → W → ℕ × ℕ × W)
  pub connect_async : Option (Bytes → Bytes → ℕ → W → ℕ × ℕ × W)
  pub send : ℕ → Bytes → W → ℕ × W
  pub recv : ℕ → ℕ → Option ℕ → W → Received × W
  pub close : ℕ → W → W

-- `ikstls`. The TLS data is `none` for NULL; `handshake` gets the place where they are kept.
pub record Tls (W : Type 0) : Type 0 where
  pub handshake : Option (Option ℕ → Transport W → ℕ → W → ℕ × Option ℕ × W)
  pub send : Option ℕ → Bytes → W → ℕ × W
  pub recv : Option ℕ → ℕ → Option ℕ → W → Received × W
  pub terminate : Option ℕ → W → W

-- `iksLogHook`, with the user data: the bytes, and whether they came in
abbrev pub LogHook : Type 0 → Type 0
LogHook W = Ptr → Bytes → Bool → W → W

-- `struct stream_data` without `prs` and the hook for stanzas. The flags are three bits, SF_FOREIGN,
-- SF_TRY_SECURE and SF_SECURE. The memory stack and the buffer are addresses.
pub record StreamData (W : Type 0) : Type 0 where
  pub s : ℕ
  pub trans : Option (Transport W)
  pub name_space : Bytes
  pub user_data : Ptr
  pub server : Option Bytes
  pub log_hook : Option (LogHook W)
  pub current : Ptr
  pub buf : Ptr
  pub sock : ℕ
  pub foreign : Bool
  pub try_secure : Bool
  pub secure : Bool
  pub auth_username : Option Bytes
  pub auth_pass : Option Bytes
  pub tlsdata : Option ℕ

pub record Conn (W : Type 0) : Type 0 where
  pub stream : StreamData W
  pub world : W

-- what a function that gets the stream does: it may also change the world and the heap
abbrev pub Act : Type 0 → Type 0 → Type 0
Act W A = Conn W → Cmd (A × Conn W)

abbrev pub return : {W A : Type 0} → A → Act W A
return a c = pure (a, c)

abbrev pub broken_off : {W A : Type 0} → Act W A
broken_off c = crash

infixl 5 ◌>>=◌
abbrev pub ◌>>=◌ : {W A B : Type 0} → Act W A → (A → Act W B) → Act W B
first >>= next = λ c h. and_then (first c h) λ r. next r.0 r.1

infixl 5 ◌>>◌
abbrev pub ◌>>◌ : {W A B : Type 0} → Act W A → Act W B → Act W B
first >> second = first >>= λ _. second

-- a command on the heap
abbrev pub on_heap : {W A : Type 0} → Cmd A → Act W A
on_heap m c h = and_then (m h) λ a. pure (a, c)

abbrev pub ask : {W : Type 0} → Act W (StreamData W)
ask c = pure (c.stream, c)

abbrev pub put : {W : Type 0} → (StreamData W → StreamData W) → Act W (Unit {0})
put f c = pure (tt, record c { stream = f c.stream })

-- a call of something outside
abbrev pub outside : {W A : Type 0} → (W → A × W) → Act W A
outside f c = let r = f c.world in pure (r.0, record c { world = r.1 })

abbrev pub nothing : {W : Type 0} → Act W (Unit {0})
nothing = return tt

-- `if (err) return err;`
abbrev pub if_ok : {W : Type 0} → ℕ → Act W ℕ → Act W ℕ
if_ok zero next = next
if_ok (suc e) next = return (suc e)

-- What the client and the build give: the allocator, the TLS layer, the transport of the build with
-- USE_DEFAULT_IO, the random source, and the hook for stanzas. A hook acts on the stream; it is
-- taken not to reset the parser that calls it.
pub record Outside (W : Type 0) : Type 0 where
  pub malloc : ℕ → Bool
  pub tls : Tls W
  pub default_transport : Option (Transport W)
  pub rand : W → ℕ × W
  pub stream_hook : Ptr → Event → Ptr → Act W ℕ
