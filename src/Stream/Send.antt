-- ===== src/Stream/Send.antt =====
-- What src/stream.c sends: `iks_send_header`, `iks_send`, `iks_send_raw`, and the requests for TLS.
use iksemel.Base.{
  ℕ, zero, suc, ◌+◌, Bool, true, false, leb, if◌then◌else◌, Option, none, some, [], ◌∷◌, concat,
  Bytes, codes, length,
}
use iksemel.Sax.Types.{iks_ok, iks_nomem}
use iksemel.Iks.Heap.{Ptr}
use iksemel.Iks.Info.{iks_stack}
use iksemel.Iks.Write.{iks_string}
use iksemel.Stream.Types.{
  iks_net_rwerr, iks_net_notsupp, Transport, Act, return, broken_off, ◌>>=◌, ◌>>◌, on_heap, ask,
  put, outside, nothing, if_ok, Outside,
}

-- a call of the log hook, if there is one
unfoldable pub log : {W : Type 0} → Bytes → Bool → Act W (Unit {0})
log bytes incoming = do
  d ← ask
  elim d.log_hook [
    | none ↦ nothing
    | some hook ↦ outside λ w. (tt, hook d.user_data bytes incoming w)
  ]

-- a call of `data->trans->send`
abbrev pub send_over : {W : Type 0} → Option (Transport W) → ℕ → Bytes → Act W ℕ
send_over none sock bytes = broken_off
send_over (some t) sock bytes = outside (t.send sock bytes)

-- `if (ret != IKS_OK) return IKS_NET_RWERR;`
abbrev pub rwerr : ℕ → ℕ
rwerr zero = iks_ok
rwerr (suc e) = iks_net_rwerr

unfoldable pub iks_send_raw : {W : Type 0} → Outside W → Option Bytes → Act W ℕ
unfolding log
iks_send_raw o none = broken_off
iks_send_raw o (some bytes) = do
  d ← ask
  ret ←
      if d.secure
      then (do r ← outside (o.tls.send d.tlsdata bytes); return (rwerr r))
      else send_over d.trans d.sock bytes
  if_ok ret (do log bytes false; return iks_ok)

-- a `sprintf` of this text into an area of `len` bytes
abbrev pub print_into : {W : Type 0} → ℕ → Bytes → Act W (Unit {0})
print_into len text = if leb (length text + 1) len then nothing else broken_off

abbrev pub header_text : Bytes → Bytes → Bytes
header_text name_space to = concat (
    codes
      "<?xml version='1.0'?><stream:stream xmlns:stream='http://etherx.jabber.org/streams' xmlns='"
    ∷ name_space
    ∷ codes "' to='"
    ∷ to
    ∷ codes "' version='1.0'>"
    ∷ [])

unfoldable pub iks_send_header : {W : Type 0} → Outside W → Bytes → Act W ℕ
unfolding iks_send_raw
iks_send_header o to = do
  d ← ask
  let len = 91 + length d.name_space + 6 + length to + 16 + 1
  if o.malloc len
      then (do
        let msg = header_text d.name_space to
        print_into len msg
        err ← iks_send_raw o (some msg)
        if_ok err (do put λ e. record e { server = some to }; return iks_ok))
      else return iks_nomem

unfoldable pub iks_send : {W : Type 0} → Outside W → ℕ → Ptr → Act W ℕ
unfolding iks_send_raw
iks_send o fuel x = do
  s ← on_heap (iks_stack x)
  text ← on_heap (iks_string fuel s x)
  iks_send_raw o text

unfoldable pub iks_has_tls : {W : Type 0} → Outside W → Bool
iks_has_tls o = elim o.tls.handshake [ none ↦ false | some f ↦ true ]

-- `data->flags & SF_SECURE`
unfoldable pub iks_is_secure : {W : Type 0} → Act W ℕ
iks_is_secure = do d ← ask; return (if d.secure then 4 else 0)

unfoldable pub iks_start_tls : {W : Type 0} → Outside W → Act W ℕ
unfolding iks_has_tls iks_send_raw
iks_start_tls o =
    if iks_has_tls o
    then (do
      ret ← iks_send_raw o (some (codes "<starttls xmlns='urn:ietf:params:xml:ns:xmpp-tls'/>"))
      if_ok ret (do put λ d. record d { try_secure = true }; return iks_ok))
    else return iks_net_notsupp
