-- ===== src/Stream/Sound/Calls.antt =====
-- Any calls of the client and of the parser on a new stream of src/stream.c, and what `iks_recv`
-- reads into its buffer behind them.
use iksemel.Base.{
  ℕ, ◌-◌, ◌≤◌, Option, none, some, List, [], ◌∷◌, Bytes, length, ◌≡◌, ◌≢◌, refl, arith,
}
use mathlib.Core.Path.{subst}
use iksemel.Sax.Types.{TagType, iks_ok}
use iksemel.Iks.Heap.{Ptr, Heap, fault, ok}
use iksemel.Stream.Types.{
  Event, SaslType, Received, broken, got, LogHook, Transport, Conn, Act, return, ◌>>◌, Outside,
}
use iksemel.Stream.Leads.{Ends, Leads, Leads-bind}
use iksemel.Stream.Send.{log, iks_send_raw, iks_send_header, iks_send, iks_start_tls}
use iksemel.Stream.Sasl.{iks_start_sasl}
use iksemel.Stream.Hooks.{stream_tag, stream_cdata, stream_delete}
use iksemel.Stream.Connect.{
  new_stream, conn, iks_connect_with, iks_connect_async_with, iks_connect_fd, iks_set_log_hook,
}
use iksemel.Stream.Recv.{net_io_buf_size, keep_bytes, end_buffer, receive}
use iksemel.Stream.Sound.{
  Sound, iks_send_raw-Leads, iks_send_header-Sound, iks_send-Sound, iks_start_tls-Sound,
}
use iksemel.Stream.Sound.Sasl.{iks_start_sasl-Sound}
use iksemel.Stream.Sound.Hooks.{stream_tag-Sound, stream_cdata-Sound, stream_delete-Sound}
use iksemel.Stream.Sound.Connect.{
  new_stream-Sound, iks_connect_with-Sound, iks_connect_async_with-Sound, iks_connect_fd-Sound,
}

-- the calls of the client, and those of the parser to the hooks
pub data Call (W : Type 0) : Type 0 where
  connects connects_async : Bytes → ℕ → Bytes → Transport W → Call W
  takes_fd : ℕ → Call W
  sets_log : Option (LogHook W) → Call W
  sends_raw : Option Bytes → Call W
  sends_header : Bytes → Call W
  sends : Ptr → Call W
  starts_tls : Call W
  starts_sasl : SaslType → Bytes → Bytes → Call W
  meets_tag : Bytes → Option (List Bytes) → TagType → Call W
  meets_text : Bytes → Call W
  resets : Call W

module _ {W : Type 0} (o : Outside W) (fuel : ℕ) where
  unfoldable pub run_call : Call W → Act W ℕ
  unfolding iks_connect_with iks_connect_async_with iks_connect_fd iks_set_log_hook iks_send_raw
      iks_send_header iks_send iks_start_tls iks_start_sasl stream_tag stream_cdata stream_delete
  run_call (connects server port name t) = iks_connect_with o server port name t
  run_call (connects_async server port name t) = iks_connect_async_with server port name t
  run_call (takes_fd fd) = iks_connect_fd o fd
  run_call (sets_log hook) = do iks_set_log_hook hook; return iks_ok
  run_call (sends_raw text) = iks_send_raw o text
  run_call (sends_header to) = iks_send_header o to
  run_call (sends x) = iks_send o fuel x
  run_call starts_tls = iks_start_tls o
  run_call (starts_sasl type username pass) = iks_start_sasl o fuel type username pass
  run_call (meets_tag name atts type) = stream_tag o fuel name atts type
  run_call (meets_text text) = stream_cdata text
  run_call resets = do stream_delete o; return iks_ok

  -- the calls one after the other, whatever they return
  unfoldable pub run_calls : List (Call W) → Act W ℕ
  unfolding run_call
  run_calls [] = return iks_ok
  run_calls (call ∷ calls) = do run_call call; run_calls calls

  module _
      (hook : (user : Ptr) (e : Event) (x : Ptr) → Leads Sound Sound (o.stream_hook user e x)) where
    run_call-Sound : (call : Call W) → Leads Sound Sound (run_call call)
    unfolding run_call
    run_call-Sound (connects server port name t) = iks_connect_with-Sound o server port name t
    run_call-Sound (connects_async server port name t) =
        iks_connect_async_with-Sound o server port name t
    run_call-Sound (takes_fd fd) = iks_connect_fd-Sound o fd
    run_call-Sound (sets_log f) = λ c h s. record { buffered = s.buffered; over = s.over }
    run_call-Sound (sends_raw text) = iks_send_raw-Leads o Sound text
    run_call-Sound (sends_header to) = iks_send_header-Sound o to
    run_call-Sound (sends x) = iks_send-Sound o fuel x
    run_call-Sound starts_tls = iks_start_tls-Sound o
    run_call-Sound (starts_sasl type username pass) = iks_start_sasl-Sound o fuel type username pass
    run_call-Sound (meets_tag name atts type) = stream_tag-Sound o fuel hook name atts type
    run_call-Sound (meets_text text) = stream_cdata-Sound o fuel text
    run_call-Sound resets = λ c h s. grind (arith, stream_delete-Sound o fuel)

    run_calls-Leads : (calls : List (Call W)) → Leads Sound Sound (run_calls calls)
    unfolding run_calls
    run_calls-Leads [] = λ c h s. s
    run_calls-Leads (call ∷ calls) =
        Leads-bind Sound Sound Sound (run_call call) (λ _. run_calls calls) (run_call-Sound call)
          λ _. run_calls-Leads calls

    -- Any calls on a new stream, whose hook of the client's keeps a stream sound, lead to a sound
    -- one if they end: it has a buffer if it has a transport, and a transport if it uses TLS.
    pub run_calls-Sound :
        (calls : List (Call W)) (s : ℕ) (name_space : Bytes) (user : Ptr) (w : W) (h g : Heap)
        (e : ℕ) (c : Conn W)
        → run_calls calls (conn (new_stream s name_space user) w) h ≡ ok (e, c) g
        → Sound c.stream
    run_calls-Sound calls s name_space user w h g e c ran =
        subst (λ r. Ends (λ r. Sound r.1.stream) r) ran
          (run_calls-Leads calls (conn (new_stream s name_space user) w) h
            (new_stream-Sound s name_space user))

-- a read gets no more bytes than there is room for
abbrev pub IsHonest : {W : Type 0} → (ℕ → W → Received × W) → Type 0
IsHonest {W} recv =
    (room : ℕ) (w : W) (bytes : Bytes) → (recv room w).0 ≡ got bytes → length bytes ≤ room

keep_bytes-fits :
    {W : Type 0} (r : Received) (c : Conn W) (h : Heap) (b : ℕ)
    → c.stream.buf ≡ some b
    → ((bytes : Bytes) → r ≡ got bytes → length bytes ≤ net_io_buf_size - 1)
    → keep_bytes r c h ≢ fault
unfolding keep_bytes end_buffer log
keep_bytes-fits broken c h b e fits = λ f. cc
keep_bytes-fits (got []) c h b e fits = λ f. cc
keep_bytes-fits (got (x ∷ bs)) c h b e fits =
    let le : length (x ∷ bs) ≤ net_io_buf_size - 1 = fits (x ∷ bs) refl in λ f. ground arith

module _ {W : Type 0} (o : Outside W) where
  -- On a sound stream with a transport, where reads get no more bytes than they have room for, the
  -- part of a round of `iks_recv` in front of the parser, which reads the bytes, ends them with a
  -- NUL and logs them, neither reads through NULL nor writes behind the buffer.
  pub receive-Sound :
      (c : Conn W) (h : Heap) (t : Transport W) (timeout : Option ℕ)
      → Sound c.stream
      → c.stream.trans ≡ some t
      → IsHonest (λ room. t.recv c.stream.sock room timeout)
      → IsHonest (λ room. o.tls.recv c.stream.tlsdata room timeout)
      → receive o timeout c h ≢ fault
  unfolding receive
  receive-Sound c h t timeout s e honest secret =
      let plain = t.recv c.stream.sock (net_io_buf_size - 1) timeout c.world in
      let hidden = o.tls.recv c.stream.tlsdata (net_io_buf_size - 1) timeout c.world in
      elim c.stream.buf as (λ b. c.stream.buf ≡ b → receive o timeout c h ≢ fault) [
        | none ↦ λ eb f. cc (s.buffered eb)
        | some b ↦ λ eb f.
            let open_fits =
              keep_bytes-fits plain.0 (record c { world = plain.1 }) h b eb (honest _ c.world) in
            let hidden_fits =
              keep_bytes-fits hidden.0 (record c { world = hidden.1 }) h b eb (secret _ c.world) in
            ground (arith, open_fits, hidden_fits)
      ]
        refl
