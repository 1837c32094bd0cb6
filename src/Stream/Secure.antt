-- ===== src/Stream/Secure.antt =====
-- How a stream of src/stream.c goes over to TLS.
use iksemel.Base.{
  ℕ, zero, suc, ◌+◌, Bool, true, false, if◌then◌else◌, Option, none, some, List, Bytes, codes,
  length, eq_bytes, ◌≡◌, refl, ◌∙◌, arith,
}
use iksemel.Sax.Types.{iks_open, iks_single, iks_ok}
use iksemel.Iks.Heap.{Heap, ok}
use iksemel.Stream.Types.{
  Transport, StreamData, Conn, Outside, return, ◌>>◌, put, if_ok, iks_net_rwerr,
}
use iksemel.Stream.Send.{header_text, log, iks_send_raw, iks_send_header}
use iksemel.Stream.Hooks.{shake_hands, proceed, open_tag, stream_tag}
use iksemel.Stream.Sent.{iks_send_header-fits}

-- the world behind a call of the log hook
abbrev pub logged : {W : Type 0} → StreamData W → Bytes → W → W
logged d text w = elim d.log_hook [ none ↦ w | some hook ↦ hook d.user_data text false w ]

-- the world behind bytes that go through TLS: they are logged if they are sent
abbrev pub through : {W : Type 0} → StreamData W → Bytes → ℕ × W → W
through d text (zero, w) = logged d text w
through d text (suc e, w) = w

module _ {W : Type 0} (o : Outside W) where
  abbrev pub raw_code : ℕ → ℕ
  raw_code zero = iks_ok
  raw_code (suc e) = iks_net_rwerr

  -- Once the stream is secure, `iks_send_raw` gives the bytes to the TLS layer alone, whatever the transport
  -- is, and returns IKS_OK or IKS_NET_RWERR.
  pub iks_send_raw-secure :
      (c : Conn W) (h : Heap) (text : Bytes)
      → c.stream.secure ≡ true
      → let r = o.tls.send c.stream.tlsdata text c.world in
        iks_send_raw o (some text) c h
        ≡ ok (raw_code r.0, record c { world = through c.stream text r }) h
  unfolding iks_send_raw log
  iks_send_raw-secure c h text secure = ground arith

  -- the stream that waits for the answer to its request for TLS
  abbrev pub waiting : Conn W → Transport W → Bytes → Conn W
  waiting c t to = record c {
    stream = record c.stream { trans = some t; server = some to; try_secure = true };
  }

  -- and the one behind the handshake
  abbrev pub secured : Conn W → Transport W → Bytes → Option ℕ → StreamData W
  secured c t to place = record c.stream {
    trans = some t;
    server = some to;
    try_secure = false;
    secure = true;
    tlsdata = place;
  }

  noted :
      (c : Conn W) (t : Transport W) (to : Bytes) (place : Option ℕ) (text : Bytes) (h : Heap)
      (r : ℕ × W)
      → let d = secured c t to place in
        let sent : Conn W = record { stream = d; world = through d text r } in
        if_ok (raw_code r.0) (put (λ e. record e { server = some to }) >> return iks_ok) sent h
        ≡ ok (raw_code r.0, sent) h
  noted c t to place text h (zero, w) = refl
  noted c t to place text h (suc e, w) = refl

  header-secured :
      (c : Conn W) (t : Transport W) (to : Bytes) (place : Option ℕ) (w : W) (h : Heap)
      → let d = secured c t to place in
        let text = header_text c.stream.name_space to in
        let r = o.tls.send place text w in
        o.malloc (length text + 1) ≡ true
        → iks_send_header o to (record { stream = d; world = w }) h
          ≡ ok (raw_code r.0, record { stream = d; world = through d text r }) h
  header-secured c t to place w h granted =
      let text = header_text c.stream.name_space to in
      let here : Conn W = record { stream = secured c t to place; world = w } in
      iks_send_header-fits o to here h
      ∙ rw (granted, iks_send_raw-secure here h text refl)
          (noted c t to place text h (o.tls.send place text w))

  -- Where the stream waits for TLS, the handshake succeeds and memory is granted, `<proceed/>`,
  -- or a start tag of that name, makes it secure, and the header goes out again, through TLS. Whether that is sent or not, the hook returns
  -- IKS_OK.
  pub stream_tag-proceed :
      (single : Bool) (fuel : ℕ) (c : Conn W) (h : Heap) (t : Transport W) (to : Bytes)
      (atts : Option (List Bytes)) (shake : Option ℕ → Transport W → ℕ → W → ℕ × Option ℕ × W)
      (place : Option ℕ) (after : W)
      → o.tls.handshake ≡ some shake
      → shake c.stream.tlsdata t c.stream.sock c.world ≡ (0, place, after)
      → let text = header_text c.stream.name_space to in
        o.malloc (length text + 1) ≡ true
        → let d = secured c t to place in
          stream_tag o fuel
            (codes "proceed")
            atts
            (if single then iks_single else iks_open)
            (waiting c t to)
            h
          ≡ ok
              (iks_ok, record { stream = d; world = through d text (o.tls.send place text after) })
              h
  unfolding stream_tag open_tag proceed shake_hands eq_bytes
  stream_tag-proceed true fuel c h t to atts shake place after has shaken granted = rw (
    stream_tag,
    open_tag,
    proceed,
    shake_hands,
    has,
    shaken,
    header-secured c t to place after h granted,
  )
  stream_tag-proceed false fuel c h t to atts shake place after has shaken granted = rw (
    stream_tag,
    open_tag,
    proceed,
    shake_hands,
    has,
    shaken,
    header-secured c t to place after h granted,
  )
