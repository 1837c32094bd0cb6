-- ===== src/Tests/Packet.antt =====
-- Stanzas that are made, written, and told apart.
use iksemel.Base.{◌≡◌, refl, suc, none, some, List, [], ◌∷◌, codes, eq_bytes, arith}
use iksemel.Iks.Heap.{Heap, ok, Cmd, Ptr, ◌>>=◌, ◌>>◌}
use iksemel.Iks.Create.{iks_new, iks_insert}
use iksemel.Iks.Move.{iks_child, iks_next}
use iksemel.Iks.Info.{iks_stack, iks_type, text_of}
use iksemel.Iks.Tree.{Att, Forest, empty, element, text}
use iksemel.Iks.Tree.Element.{Element}
use iksemel.Iks.Write.{iks_string}
use iksemel.Utility.Escape.{starts_with}
use iksemel.Jabber.Id.{strchr, skip_scheme}
use iksemel.Jabber.Ask.{copy_of, iks_id_new}
use iksemel.Jabber.Packet.{type_chat, pak_by_name, presence_pak, iq_pak, find_query, iks_packet}
use iksemel.Jabber.Make.{
  maybe_attrib, maybe_child, text_child, iks_make_msg, iks_make_pres, iks_make_iq, iks_make_session,
}
use iksemel.Jabber.Features.{
  is_text, sasl_mechanisms, add_feature, features_from, iks_stream_features,
}
use iksemel.Jabber.Classify.{packet_of, iks_packet-packet_of}
use iksemel.Tests.Dom.{running, empty_heap, result, left}

-- all that the functions of src/jabber.c compute with
stanzas : Unit {0}
unfolding running iks_child iks_next iks_stack iks_type text_of starts_with strchr skip_scheme
    copy_of iks_id_new pak_by_name presence_pak iq_pak find_query iks_packet maybe_attrib
    maybe_child text_child iks_make_msg iks_make_pres iks_make_iq iks_make_session is_text
    sasl_mechanisms add_feature features_from iks_stream_features
stanzas = tt

make-text :
    result (
      (do
        x ← iks_make_msg 9 type_chat (some (codes "b@c")) (some (codes "1<2"))
        iks_string 30 none x)
        empty_heap)
    ≡ some (some (codes "<message type='chat' to='b@c'><body>1&lt;2</body></message>"))
unfolding stanzas
make-text = refl

abbrev chat : Cmd Ptr
chat = iks_make_msg 9 type_chat (some (codes "b")) (some (codes "hi"))

abbrev chat_heap : Heap
chat_heap = left (chat empty_heap)

abbrev chat_atts : List Att
chat_atts =
    record { at = 3; name = codes "type"; value = codes "chat" }
    ∷ record { at = 6; name = codes "to"; value = codes "b" }
    ∷ []

abbrev chat_kids : Forest
chat_kids = element 9 (codes "body") [] (text 11 (codes "hi") empty) empty

chat-Element :
    Element chat_heap.node chat_heap.fresh 0 1 none none none (codes "message") chat_atts chat_kids
unfolding stanzas
chat-Element = record {
  here = refl;
  named = refl;
  own = (refl, refl, refl, (refl, refl, refl, tt));
  below = (refl, refl, tt, (refl, tt), tt);
  under = omega arith;
  clear =
      ((ground arith, ground arith, omega arith), ((ground arith, ground arith, omega arith), tt));
  ends =
      ((refl, ground arith, omega arith), tt, ((ground arith, ground arith, omega arith), tt), tt);
}

iks_packet-packet_of_example :
    iks_packet 9 (some 1) chat_heap
    ≡ ok
        (some (packet_of 1 (codes "message") chat_atts chat_kids none))
        (record chat_heap { fresh = suc chat_heap.fresh })
unfolding stanzas
iks_packet-packet_of_example =
    iks_packet-packet_of chat_heap 9 chat_heap.fresh 0 1 none none none (codes "message") chat_atts
      chat_kids (omega arith) (omega arith) chat-Element

chat-packet : (packet_of 1 (codes "message") chat_atts chat_kids none).subtype ≡ type_chat
unfolding eq_bytes
chat-packet = refl

features-bits :
    result (
      (do
        x ← iks_new (some (codes "stream:features"))
        iks_insert x (some (codes "starttls"))
        y ← iks_insert x (some (codes "mechanisms"))
        text_child y (codes "mechanism") (some (codes "EXTERNAL"))
        text_child y (codes "mechanism") (some (codes "PLAIN"))
        iks_stream_features 20 x)
        empty_heap)
    ≡ some 9
unfolding stanzas
features-bits = refl
