-- ===== src/Tests/Stream.antt =====
-- Streams over a transport that writes down what it is given.
use iksemel.Base.{
  not, strlen, eq_bytes, ◌==◌, suc, ◌≡◌, ◌≢◌, refl, ℕ, arith, true, Option, none, some, List, [],
  ◌∷◌, ◌++◌, Bytes, codes, take, length-take,
}
use iksemel.Iks.Heap.{Ptr, Heap, Run, fault, out_of_fuel, ok}
use iksemel.Sax.Types.{iks_open, iks_close, iks_single, iks_ok, Env, Outcome, Parser}
use iksemel.Stream.Types.{
  Event, iks_node_start, iks_node_normal, iks_node_stop, Received, broken, got, Transport, Tls,
  StreamData, Conn, Act, return, ◌>>=◌, ◌>>◌, ask, outside, Outside,
}
use iksemel.Stream.Types as Kinds
use iksemel.Sax.Types
use iksemel.Stream.Connect.{new_stream, conn}
use iksemel.Stream.Send.{
  log, iks_send_raw, iks_send_header, iks_send, iks_start_tls, iks_has_tls, header_text,
}
use iksemel.Stream.Sound.{Sound}
use iksemel.Stream.Sound.Calls.{Call, connects, run_call, run_calls}
use iksemel.Stream.Connect.{iks_connect_with, connected, with_buffer, iks_stream_new, Stream, call}
use iksemel.Stream.Hooks.{
  stream_tag, open_tag, open_node, enter, close_tag, leave, deliver, put_attribs, proceed,
  shake_hands, stream_cdata, stream_delete, stream_env,
}
use iksemel.Stream.Recv.{iks_recv, receive, keep_bytes, end_buffer, has_trans}
use iksemel.Stream.Leads.{Leads}
use iksemel.Stream.Sent.{send_and_note, iks_send_header-fits, iks_send-print}
use iksemel.Stream.Answer.{Fitting, make_sasl_response-Fitting}
use iksemel.Stream.Stanza.{at_node, with_stanza, Lost, stream_tag-Lost}
use iksemel.Stream.Secure.{secured, waiting, iks_send_raw-secure, stream_tag-proceed}
use iksemel.Stream.Hooks.{put_attribs}
use iksemel.Stream.Digest.{parse_digest-first}
use iksemel.Stream.Sasl.{parse_digest, realm_nonce, strstr, string_from, closing_quote}
use iksemel.Iks.Write.Print.{fuel_for}
use iksemel.Iks.Tree.{print}
use iksemel.Utility.Escape.{escape_bytes, escape_byte}
use iksemel.Tests.Dom.{parsing}
use iksemel.Stream.Sound.Calls.{run_calls-Sound, receive-Sound, IsHonest}
use iksemel.Iks.Info.{iks_stack, text_of}
use iksemel.Iks.Move.{iks_child}
use iksemel.Tests.Dom.{empty_heap, running, left, built, built_atts, built_kids}

-- what lies outside: the bytes to come, the bytes that went out in the clear and through TLS, and
-- the calls of the client's hook
abbrev World : Type 0
World = (List Bytes × (Bytes × Bytes)) × List (Event × Ptr)

abbrev next_of : ℕ → World → Received × World
next_of room (([], out), seen) = (got [], (([], out), seen))
next_of room ((b ∷ bs, out), seen) = (got (take room b), ((bs, out), seen))

abbrev wire : Transport World
wire = record {
  connect = some (λ server port w. (0, 7, w));
  connect_async = none;
  send = λ sock bytes w. (0, ((w.0.0, (w.0.1.0 ++ bytes, w.0.1.1)), w.1));
  recv = λ sock room timeout w. next_of room w;
  close = λ sock w. w;
}

abbrev hidden : Tls World
hidden = record {
  handshake = some (λ place t sock w. (0, some 1, w));
  send = λ place bytes w. (0, ((w.0.0, (w.0.1.0, w.0.1.1 ++ bytes)), w.1));
  recv = λ place room timeout w. next_of room w;
  terminate = λ place w. w;
}

abbrev client : Outside World
client = record {
  malloc = λ n. true;
  tls = hidden;
  default_transport = some wire;
  rand = λ w. (0xabc, w);
  stream_hook = λ user e x. Kinds.outside λ w. (0, (w.0, w.1 ++ (e, x) ∷ []));
}

abbrev world : World
world = (([], ([], [])), [])

abbrev fresh : Conn World
fresh = conn (new_stream 0 (codes "jabber:client") none) world

-- the bytes that went out in the clear
abbrev sent : Run (ℕ × Conn World) → Bytes
sent (ok r h) = r.1.world.0.1.0
sent _ = []

-- all that a stream computes with
streaming : Unit {0}
unfolding running log iks_send_raw iks_send_header iks_send iks_start_tls iks_has_tls
    iks_connect_with connected with_buffer stream_tag open_tag open_node enter close_tag leave
    deliver put_attribs proceed shake_hands stream_cdata stream_delete stream_env run_call run_calls
    iks_stream_new iks_recv receive keep_bytes end_buffer has_trans iks_stack iks_child text_of
streaming = tt

header_sent :
    sent (iks_connect_with client (codes "h") 5222 (codes "h") wire fresh empty_heap)
    ≡ header_text (codes "jabber:client") (codes "h")
unfolding streaming
header_sent = refl

abbrev calls : List (Call World)
calls = connects (codes "h") 5222 (codes "h") wire ∷ []

abbrev after_calls : Run (ℕ × Conn World)
after_calls = run_calls client 9 calls fresh empty_heap

-- the heap and the stream that a run leaves
abbrev conn_of : Run (ℕ × Conn World) → Conn World
conn_of (ok r h) = r.1
conn_of _ = fresh

keeps_hook : (user : Ptr) (e : Event) (x : Ptr) → Leads Sound Sound (client.stream_hook user e x)
keeps_hook user e x c h s = s

run_calls-Sound_example : Sound (conn_of after_calls).stream
unfolding streaming
run_calls-Sound_example =
    run_calls-Sound client 9 keeps_hook calls 0 (codes "jabber:client") none world empty_heap
      (left after_calls) 0 (conn_of after_calls) refl

wire-IsHonest : (data' : ℕ) (timeout : Option ℕ) → IsHonest (λ room. wire.recv data' room timeout)
wire-IsHonest data' timeout room (([], out), seen) bytes e = ground arith
wire-IsHonest data' timeout room ((b ∷ bs, out), seen) bytes e = grind (arith, length-take room b)

hidden-IsHonest :
    (place : Option ℕ) (timeout : Option ℕ) → IsHonest (λ room. hidden.recv place room timeout)
hidden-IsHonest place timeout = wire-IsHonest 0 timeout

receive-Sound_example : receive client none (conn_of after_calls) (left after_calls) ≢ fault
unfolding streaming
receive-Sound_example =
    receive-Sound client (conn_of after_calls) (left after_calls) wire none run_calls-Sound_example
      refl (wire-IsHonest 7 none) (hidden-IsHonest none none)

iks_send_header-fits_example :
    iks_send_header client (codes "h") fresh empty_heap
    ≡ send_and_note client
        (header_text (codes "jabber:client") (codes "h"))
        (codes "h")
        fresh
        empty_heap
iks_send_header-fits_example = iks_send_header-fits client (codes "h") fresh empty_heap

iks_send-print_example :
    iks_send client 30 (some 1) fresh built
    ≡ iks_send_raw client
        (some (codes "<a b='1'>x&amp;y<c/></a>"))
        fresh
        (record built { fresh = suc built.fresh })
unfolding running fuel_for print escape_bytes escape_byte
iks_send-print_example =
    iks_send-print client 30 fresh built 0 1 none none none (codes "a") built_atts built_kids
      (omega arith) refl refl (refl, refl, refl, tt) (refl, (refl, refl, tt, tt, tt))

-- a stream with the names for an answer
abbrev named : Conn World
named = record fresh {
  stream = record fresh.stream {
    server = some (codes "h");
    auth_username = some (codes "u");
    auth_pass = some (codes "p");
  };
}

make_sasl_response-Fitting_example :
    Fitting client named empty_heap
      (codes "realm=\"r\",nonce=\"n\"")
      (codes "u")
      (codes "r")
      (codes "n")
      (codes "h")
unfolding realm_nonce parse_digest strstr string_from closing_quote strlen eq_bytes
make_sasl_response-Fitting_example =
    make_sasl_response-Fitting client named empty_heap (codes "realm=\"r\",nonce=\"n\"") (codes "u")
      (codes "r") (codes "n") (codes "h") refl refl refl

abbrev id_atts : Option (List Bytes)
id_atts = some (codes "id" ∷ codes "1" ∷ [])

-- the heap with the stanza, behind `insert_attribs`
abbrev with_id : Heap
with_id = left (
    put_attribs 9 (some 1) id_atts (at_node fresh none) (with_stanza empty_heap (codes "presence")))

abbrev no_name : Heap
no_name = record empty_heap { grants = λ n. not (n == 2) }

stream_tag-Lost_example : Lost client 9 fresh (codes "presence") id_atts no_name
unfolding running
stream_tag-Lost_example =
    stream_tag-Lost client 9 fresh (codes "presence") id_atts no_name tt refl refl

stream_tag-proceed_example :
    let d = secured client fresh wire (codes "h") (some 1) in
    let text = header_text (codes "jabber:client") (codes "h") in
    stream_tag client 9
      (codes "proceed")
      none
      iks_single
      (waiting client fresh wire (codes "h"))
      empty_heap
    ≡ ok (0, record { stream = d; world = (([], ([], text)), []) }) empty_heap
stream_tag-proceed_example =
    stream_tag-proceed client true 9 fresh empty_heap wire (codes "h") none
      (λ place t sock w. (0, some 1, w)) (some 1) world refl refl refl

iks_send_raw-secure_example :
    iks_send_raw client
      (some (codes "x"))
      (record fresh { stream = record fresh.stream { secure = true } })
      empty_heap
    ≡ ok
        (
          0,
          record {
            stream = record fresh.stream { secure = true };
            world = (([], ([], codes "x")), []);
          },
        )
        empty_heap
iks_send_raw-secure_example =
    iks_send_raw-secure client (record fresh { stream = record fresh.stream { secure = true } })
      empty_heap (codes "x") refl

-- `realm="",nonce="n"`: the value is taken to be `",nonce=`
parse_digest-first_example :
    parse_digest (codes "realm=\"\",nonce=\"n\"") (codes "realm=\"") ≡ (some 7, some 15)
parse_digest-first_example =
    parse_digest-first (codes "realm=\"") 0x22 (codes ",nonce=") (codes "n\"")
      (refl, (refl, (refl, (refl, (refl, (refl, (refl, (refl, tt))))))))
      (refl, (refl, (refl, (refl, (refl, (refl, (refl, tt)))))))

-- a session through the parser: the client sees the stream's header, and a stanza that comes in two
-- pieces
abbrev pieces : World
pieces = ((codes "<stream:stream><a>" ∷ codes "b</a>" ∷ [], ([], [])), [])

abbrev session : Option (Stream World)
session = elim (iks_stream_new client 200 (codes "jabber:client") none pieces empty_heap) [
  | ok p h ↦ p
  | fault ↦ none
  | out_of_fuel ↦ none
]

abbrev received : Stream World → Outcome (Run (Conn World)) (Stream World)
received p =
    iks_recv client 40 5 (call (iks_connect_with client (codes "h") 5222 (codes "h") wire) p).1 none

-- how often the client's hook was called, by the node that it got
abbrev seen_by : Outcome (Run (Conn World)) (Stream World) → List (Event × Ptr)
seen_by (Types.ok p) = elim p.user_data [ ok c h ↦ c.world.1 | fault ↦ [] | out_of_fuel ↦ [] ]
seen_by _ = []

session_seen :
    elim session [ none ↦ [] | some p ↦ seen_by (received p) ]
    ≡ (iks_node_start, some 4) ∷ (iks_node_normal, some 7) ∷ []
unfolding streaming parsing call
session_seen = refl
