-- ===== src/Stream/Hooks.antt =====
-- The hooks with which src/stream.c stands behind the parser of src/sax.c: `tagHook`, `cdataHook`
-- and `deleteHook`.
use iksemel.Base.{
  ℕ, Bool, true, false, ◌&&◌, if◌then◌else◌, Option, none, some, List, Bytes, codes, length,
  eq_bytes,
}
use iksemel.Sax.Types.{TagType, iks_open, iks_close, iks_single, iks_ok, Env}
use iksemel.Iks.Heap.{Ptr, Run, ok, and_then}
use iksemel.Iks.Create.{iks_new, iks_insert, iks_insert_cdata, iks_delete}
use iksemel.Iks.Move.{iks_parent}
use iksemel.Dom.{insert_atts, coded}
use iksemel.Stream.Types.{
  iks_net_notsupp, iks_net_tlsfail, iks_node_start, iks_node_normal, iks_node_error, iks_node_stop,
  Transport, Tls, StreamData, Conn, Act, return, broken_off, ◌>>=◌, ◌>>◌, on_heap, ask, put,
  nothing, if_ok, Outside,
}
use iksemel.Stream.Types
use iksemel.Stream.Send.{iks_send_header}
use iksemel.Stream.Sasl.{iks_sasl_challenge, not_null}

-- `insert_attribs`; on a node that is NULL, `iks_insert_attrib` does nothing
unfoldable pub put_attribs : {W : Type 0} → ℕ → Ptr → Option (List Bytes) → Act W (Unit {0})
unfolding insert_atts
put_attribs fuel x none = nothing
put_attribs fuel x (some atts) = on_heap (insert_atts fuel x atts)

-- what a handshake gives: the error code and the TLS data
abbrev pub shaken : {W : Type 0} → ℕ × Option ℕ × W → (ℕ × Option ℕ) × W
shaken (e, place, after) = ((e, place), after)

-- `handshake`, which sets the place of the TLS data; a missing one is a call through NULL
unfoldable pub shake_hands : {W : Type 0} → Outside W → Act W ℕ
shake_hands o = do
  shake ← not_null o.tls.handshake
  d ← ask
  t ← not_null d.trans
  r ← Types.outside λ w. shaken (shake d.tlsdata t d.sock w)
  put λ e. record e { tlsdata = r.1 }
  return r.0

-- `<proceed/>` for the request for TLS
unfoldable pub proceed : {W : Type 0} → Outside W → Act W ℕ
unfolding shake_hands iks_send_header
proceed o = do
  err ← shake_hands o
  if_ok err do
    put λ d. record d { try_secure = false; secure = true }
    d ← ask
    to ← not_null d.server
    iks_send_header o to
    return iks_ok

-- The element at the top is complete: it is answered, or handed to the client.
unfoldable pub deliver : {W : Type 0} → Outside W → ℕ → Bytes → Ptr → Act W ℕ
unfolding iks_sasl_challenge
deliver o fuel name x = do
  d ← ask
  if eq_bytes name (codes "challenge")
      then (do iks_sasl_challenge o fuel x; on_heap (iks_delete x); return iks_ok)
      else if eq_bytes name (codes "stream:error")
      then o.stream_hook d.user_data iks_node_error x
      else o.stream_hook d.user_data iks_node_normal x

-- the end of `x`, which is in this parent or at the top
unfoldable pub leave : {W : Type 0} → Outside W → ℕ → Bytes → ℕ → Ptr → Act W ℕ
unfolding deliver
leave o fuel name x none = do put λ e. record e { current = none }; deliver o fuel name (some x)
leave o fuel name x (some y) = do put λ e. record e { current = some y }; return iks_ok

-- the case IKS_CLOSE of `tagHook`
unfoldable pub close_tag : {W : Type 0} → Outside W → ℕ → Bytes → Act W ℕ
unfolding leave
close_tag o fuel name = do
  d ← ask
  elim d.current [
    | none ↦ o.stream_hook d.user_data iks_node_stop none
    | some x ↦ do parent ← on_heap (iks_parent (some x)); leave o fuel name x parent
  ]

-- `data->current = x;`, and a tag that is no open one goes on as an end tag
unfoldable pub enter : {W : Type 0} → Outside W → ℕ → Bytes → Bool → Ptr → Act W ℕ
unfolding close_tag
enter o fuel name open_tag x = do
  put λ d. record d { current = x }
  if open_tag then return iks_ok else close_tag o fuel name

-- the cases IKS_OPEN and IKS_SINGLE of `tagHook`, behind the answers to the request for TLS
unfoldable pub open_node :
    {W : Type 0} → Outside W → ℕ → Bytes → Option (List Bytes) → Bool → Act W ℕ
unfolding put_attribs enter
open_node o fuel name atts open_tag = do
  d ← ask
  elim d.current [
    | some c ↦ do
      x ← on_heap (iks_insert (some c) (some name))
      put_attribs fuel x atts
      enter o fuel name open_tag x
    | none ↦ do
      x ← on_heap (iks_new (some name))
      put_attribs fuel x atts
      if eq_bytes name (codes "stream:stream")
          then o.stream_hook d.user_data iks_node_start x
          else enter o fuel name open_tag x
  ]

-- the cases IKS_OPEN and IKS_SINGLE of `tagHook`
unfoldable pub open_tag :
    {W : Type 0} → Outside W → ℕ → Bytes → Option (List Bytes) → Bool → Act W ℕ
unfolding proceed open_node
open_tag o fuel name atts is_start = do
  d ← ask
  if d.try_secure && eq_bytes name (codes "proceed")
      then proceed o
      else if d.try_secure && eq_bytes name (codes "failure")
      then return iks_net_tlsfail
      else open_node o fuel name atts is_start

-- `tagHook`
unfoldable pub stream_tag :
    {W : Type 0} → Outside W → ℕ → Bytes → Option (List Bytes) → TagType → Act W ℕ
unfolding open_tag close_tag
stream_tag o fuel name atts iks_close = close_tag o fuel name
stream_tag o fuel name atts iks_open = open_tag o fuel name atts true
stream_tag o fuel name atts iks_single = open_tag o fuel name atts false

-- `cdataHook`
unfoldable pub stream_cdata : {W : Type 0} → Bytes → Act W ℕ
stream_cdata text = do
  d ← ask
  elim d.current [
    | none ↦ nothing
    | some c ↦ do on_heap (iks_insert_cdata (some c) (some text) (length text)); nothing
  ]
  return iks_ok

-- `deleteHook`
unfoldable pub stream_delete : {W : Type 0} → Outside W → Act W (Unit {0})
stream_delete o = do
  d ← ask
  if d.secure
      then (do
        Types.outside λ w. (tt, o.tls.terminate d.tlsdata w)
        put λ e. record e { tlsdata = none })
      else nothing
  elim d.trans [ none ↦ nothing | some t ↦ Types.outside λ w. (tt, t.close d.sock w) ]
  put λ e. record e { trans = none }
  on_heap (iks_delete d.current)
  put λ e. record e { current = none; foreign = false; try_secure = false; secure = false }

-- the hooks as `iks_stream_new` gives them to the parser, whose user data is the run so far
unfoldable pub stream_env : {W : Type 0} → Outside W → ℕ → Env (Run (Conn W))
unfolding stream_tag stream_cdata stream_delete
stream_env o fuel = record {
  malloc = o.malloc;
  tag_hook = some (λ u name atts type. coded (and_then u (stream_tag o fuel name atts type)));
  cdata_hook = some (λ u text. coded (and_then u (stream_cdata text)));
  delete_hook = some (λ u. and_then u λ c h. and_then (stream_delete o c h) λ r. ok r.1);
}
