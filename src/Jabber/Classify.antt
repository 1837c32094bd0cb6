-- ===== src/Jabber/Classify.antt =====
-- What `iks_packet` of src/jabber.c makes of an element that nodes hold.
use iksemel.Base.{
  Bool, ap, ◌∙◌, Bool-cases, inl, inr, ℕ, zero, suc, ◌+◌, ◌≤◌, true, false, if◌then◌else◌, Option,
  none, some, List, Bytes, codes, length, eq_bytes, ◌≡◌, refl, arith,
}
use iksemel.Iks.Heap.{
  and_then, Run, non_null, Ptr, Heap, ok, Cmd, pure, ◌>>=◌, if_null, load, load_tag, request,
}
use iksemel.Iks.Tree.{Att, Forest, empty, element, text, head, Holds}
use iksemel.Iks.Tree.Element.{Element}
use iksemel.Iks.Find.{iks_find_attrib}
use iksemel.Iks.Find.First.{
  siblings, value_of, attrib_value-value_of, iks_find_attrib-value_of, text_in,
  iks_find_cdata-text_in,
}
use iksemel.Iks.Move.{iks_child, iks_next}
use iksemel.Iks.Info.{iks_stack, iks_type, iks_name}
use iksemel.Jabber.Id.{IksId}
use iksemel.Jabber.Ask.{iks_id_new, Asks, asked, crashes, iks_id_new-Asks}
use iksemel.Jabber.Packet.{
  PakType, pak_none, pak_message, pak_presence, pak_iq, pak_s10n, SubType, type_none, type_error,
  type_chat, type_groupchat, type_headline, type_get, type_set, type_result, type_subscribe,
  type_subscribed, type_unsubscribe, type_unsubscribed, type_available, type_unavailable,
  type_probe, Show, show_unavailable, show_available, show_chat, show_away, show_xa, show_dnd, pick,
  pick_from, message_types, presence_types, shows, iq_types, Ikspak, plain_pak, message_pak,
  presence_pak, find_query, with_query, typed_iq, iq_pak, pak_by_name, iks_packet,
}

-- the first child that is an element with a namespace, and the namespace
abbrev pub query_in : Forest → Option (ℕ × Bytes)
query_in empty = none
query_in (text at s rest) = query_in rest
query_in (element at name atts kids rest) = elim (value_of (codes "xmlns") atts) [
  | none ↦ query_in rest
  | some ns ↦ some (at, ns)
]

-- fuel for the children, and for the attributes of each
abbrev pub fuel_in : Forest → ℕ
fuel_in empty = 0
fuel_in (text at s rest) = suc (fuel_in rest)
fuel_in (element at name atts kids rest) = suc (length atts + fuel_in rest)

module _ (h : Heap) (s : ℕ) where
  found_or :
      (at : ℕ) (more : Cmd (Option (ℕ × Bytes))) (r : Option (ℕ × Bytes)) (v : Option Bytes)
      → more h ≡ ok r h
      → if_null v more (λ ns. pure (some (at, ns))) h
        ≡ ok (elim v [ none ↦ r | some ns ↦ some (at, ns) ]) h
  found_or at more r none e = e
  found_or at more r (some ns) e = refl

  find_query-query_in :
      (fuel : ℕ) (parent prev : Ptr) (t : Forest)
      → fuel_in t ≤ fuel
      → Holds h.node s parent prev t
      → find_query fuel (head t) h ≡ ok (query_in t) h
  unfolding find_query iks_type iks_next load iks_find_attrib load_tag
  find_query-query_in fuel parent prev empty le held = refl
  find_query-query_in zero parent prev (text at c rest) le held = absurd (omega arith)
  find_query-query_in zero parent prev (element at n atts kids rest) le held = absurd (omega arith)
  find_query-query_in (suc fuel) parent prev (text at c rest) le (here, held) =
      rw (find_query, iks_type, load, here, iks_next, load, here)
        (find_query-query_in fuel parent (some at) rest (omega arith) held)
  find_query-query_in (suc fuel) parent prev (element at n atts kids rest) le
        (here, _, own, _, held) =
      rw
        (
          find_query,
          iks_type,
          load,
          here,
          iks_find_attrib,
          load_tag,
          load,
          here,
          attrib_value-value_of h s (codes "xmlns") fuel (some at) none atts (omega arith) own,
        )
        (found_or at _ (query_in rest) (value_of (codes "xmlns") atts) (
          rw (iks_next, load, here)
            (find_query-query_in fuel parent (some at) rest (omega arith) held)))

-- what the name of the element says, by kind
abbrev pub by_name {ℓ} : {A : Type ℓ} → Bytes → A → A → A → A → A
by_name name message presence iq other =
    if eq_bytes name (codes "message")
    then message
    else if eq_bytes name (codes "presence")
    then presence
    else if eq_bytes name (codes "iq")
    then iq
    else other

abbrev pub message_subtype : Option Bytes → SubType
message_subtype none = type_none
message_subtype (some t) =
    if eq_bytes t (codes "chat")
    then type_chat
    else if eq_bytes t (codes "groupchat")
    then type_groupchat
    else if eq_bytes t (codes "headline")
    then type_headline
    else if eq_bytes t (codes "error")
    then type_error
    else type_none

abbrev pub iq_subtype : Option Bytes → SubType
iq_subtype none = type_none
iq_subtype (some t) =
    if eq_bytes t (codes "get")
    then type_get
    else if eq_bytes t (codes "set")
    then type_set
    else if eq_bytes t (codes "result")
    then type_result
    else if eq_bytes t (codes "error")
    then type_error
    else type_none

-- a presence without a type, or one that says that it is over or asks for one; all others are
-- about subscriptions
abbrev pub presence_type : Option Bytes → PakType
presence_type none = pak_presence
presence_type (some t) =
    if eq_bytes t (codes "unavailable")
    then pak_presence
    else if eq_bytes t (codes "probe")
    then pak_presence
    else pak_s10n

abbrev pub presence_subtype : Option Bytes → SubType
presence_subtype none = type_available
presence_subtype (some t) =
    if eq_bytes t (codes "unavailable")
    then type_unavailable
    else if eq_bytes t (codes "probe")
    then type_probe
    else if eq_bytes t (codes "subscribe")
    then type_subscribe
    else if eq_bytes t (codes "subscribed")
    then type_subscribed
    else if eq_bytes t (codes "unsubscribe")
    then type_unsubscribe
    else if eq_bytes t (codes "unsubscribed")
    then type_unsubscribed
    else if eq_bytes t (codes "error")
    then type_error
    else type_none

abbrev pub show_of : Option Bytes → Show
show_of none = show_available
show_of (some t) =
    if eq_bytes t (codes "chat")
    then show_chat
    else if eq_bytes t (codes "away")
    then show_away
    else if eq_bytes t (codes "xa")
    then show_xa
    else if eq_bytes t (codes "dnd")
    then show_dnd
    else show_available

abbrev pub presence_show : Option Bytes → Forest → Show
presence_show none kids = show_of (text_in (codes "show") kids)
presence_show (some t) kids = show_unavailable

abbrev place_in : Option (ℕ × Bytes) → Ptr
place_in none = none
place_in (some q) = some q.0

abbrev namespace_in : Option (ℕ × Bytes) → Option Bytes
namespace_in none = none
namespace_in (some q) = some q.1

-- what the element at `x` is about, field by field
abbrev pub packet_of : ℕ → Bytes → List Att → Forest → Option IksId → Ikspak
packet_of x own atts kids from =
    let tmp = value_of (codes "type") atts in
    record {
      x = some x;
      from = from;
      query = by_name own none none (place_in (query_in kids)) none;
      ns = by_name own none none (namespace_in (query_in kids)) none;
      id = value_of (codes "id") atts;
      type = by_name own pak_message (presence_type tmp) pak_iq pak_none;
      subtype = by_name own (message_subtype tmp) (presence_subtype tmp) (iq_subtype tmp) type_none;
      show =
          by_name own show_unavailable (presence_show tmp kids) show_unavailable show_unavailable;
    }

-- The tables of the model give what is said here.
message_types_lem :
    (tmp : Option Bytes) → pick_from message_types type_none tmp ≡ message_subtype tmp
message_types_lem none = refl
message_types_lem (some t) = refl

iq_types_lem : (tmp : Option Bytes) → pick_from iq_types type_none tmp ≡ iq_subtype tmp
iq_types_lem none = refl
iq_types_lem (some t) = refl

shows_lem : (tmp : Option Bytes) → pick_from shows show_available tmp ≡ show_of tmp
shows_lem none = refl
shows_lem (some t) = refl

abbrev chosen : Bool → Bool → Bool → Bool → Bool → Bool → Bool → PakType × SubType × Show
chosen a b c d e f g =
    if a
    then (pak_presence, type_unavailable, show_unavailable)
    else if b
    then (pak_presence, type_probe, show_unavailable)
    else if c
    then (pak_s10n, type_subscribe, show_unavailable)
    else if d
    then (pak_s10n, type_subscribed, show_unavailable)
    else if e
    then (pak_s10n, type_unsubscribe, show_unavailable)
    else if f
    then (pak_s10n, type_unsubscribed, show_unavailable)
    else if g
    then (pak_s10n, type_error, show_unavailable)
    else (pak_s10n, type_none, show_unavailable)

abbrev fields : Bool → Bool → Bool → Bool → Bool → Bool → Bool → PakType × SubType × Show
fields a b c d e f g = (
  if a then pak_presence else if b then pak_presence else pak_s10n,
  if a
      then type_unavailable
      else if b
      then type_probe
      else if c
      then type_subscribe
      else if d
      then type_subscribed
      else if e
      then type_unsubscribe
      else if f
      then type_unsubscribed
      else if g
      then type_error
      else type_none,
  show_unavailable,
)

presence_types_lem :
    (t : Bytes)
    → pick presence_types (pak_s10n, type_none, show_unavailable) t
      ≡ (presence_type (some t), presence_subtype (some t), show_unavailable)
presence_types_lem t =
    by_tests (eq_bytes t (codes "unavailable")) (eq_bytes t (codes "probe"))
      (eq_bytes t (codes "subscribe")) (eq_bytes t (codes "subscribed"))
      (eq_bytes t (codes "unsubscribe")) (eq_bytes t (codes "unsubscribed"))
      (eq_bytes t (codes "error"))
  where
    by_tests : (a b c d e f g : Bool) → chosen a b c d e f g ≡ fields a b c d e f g
    by_tests true b c d e f g = refl
    by_tests false true c d e f g = refl
    by_tests false false true d e f g = refl
    by_tests false false false true e f g = refl
    by_tests false false false false true f g = refl
    by_tests false false false false false true g = refl
    by_tests false false false false false false true = refl
    by_tests false false false false false false false = refl

siblings_le : (t : Forest) → siblings t ≤ fuel_in t
siblings_le empty = omega arith
siblings_le (text at s rest) = omega (arith, siblings_le rest)
siblings_le (element at name atts kids rest) = omega (arith, siblings_le rest)

module _ (h : Heap) (fuel bound s x : ℕ) (parent prev next : Ptr) (own : Bytes) (atts : List Att)
    (kids : Forest) (e : Element h.node bound s x parent prev next own atts kids)
    (few : fuel_in kids ≤ fuel) where
  presence_pak_lem :
      (tmp : Option Bytes) (pak : Ikspak)
      → pak.show ≡ show_unavailable
      → presence_pak fuel (some x) tmp pak h
        ≡ ok
            (record pak {
              type = presence_type tmp;
              subtype = presence_subtype tmp;
              show = presence_show tmp kids;
            })
            h
  unfolding presence_pak
  presence_pak_lem none pak hidden = rw (
    iks_find_cdata-text_in h s (codes "show") fuel bound x parent prev next own atts kids
        (omega (arith, siblings_le kids)) e,
    shows_lem (text_in (codes "show") kids),
  )
  presence_pak_lem (some tmp) pak hidden =
      ap
        (λ (r : PakType × SubType × Show).
          ok (record pak { type = r.0; subtype = r.1; show = r.2 }) h)
        (presence_types_lem tmp)

  iq_pak-query_in :
      (tmp : Option Bytes) (pak : Ikspak)
      → iq_pak fuel (some x) tmp pak h ≡ ok (with_query (query_in kids) (typed_iq tmp pak)) h
  unfolding iq_pak iks_child load load_tag
  iq_pak-query_in tmp pak = rw (
    iq_pak,
    iks_child,
    load,
    e.here,
    load_tag,
    load,
    e.here,
    find_query-query_in h s fuel (some x) none kids few e.below,
  )

  -- the fields by the name, at once
  abbrev named : Bool → Bool → Bool → Option IksId → Ikspak
  named m p i from =
      let tmp = value_of (codes "type") atts in
      record {
        x = some x;
        from = from;
        query =
            if m then none else if p then none else if i then place_in (query_in kids) else none;
        ns =
            if m
            then none
            else if p
            then none
            else if i
            then namespace_in (query_in kids)
            else none;
        id = value_of (codes "id") atts;
        type =
            if m
            then pak_message
            else if p
            then presence_type tmp
            else if i
            then pak_iq
            else pak_none;
        subtype =
            if m
            then message_subtype tmp
            else if p
            then presence_subtype tmp
            else if i
            then iq_subtype tmp
            else type_none;
        show =
            if m
            then show_unavailable
            else if p
            then presence_show tmp kids
            else if i
            then show_unavailable
            else show_unavailable;
      }

  with_query_lem :
      (q : Option (ℕ × Bytes)) (from : Option IksId)
      → let tmp = value_of (codes "type") atts in
        with_query q (typed_iq tmp (plain_pak (some x) from (value_of (codes "id") atts)))
        ≡ record {
          x = some x;
          from = from;
          query = place_in q;
          ns = namespace_in q;
          id = value_of (codes "id") atts;
          type = pak_iq;
          subtype = iq_subtype tmp;
          show = show_unavailable;
        }
  with_query_lem none from = rw (iq_types_lem (value_of (codes "type") atts))
  with_query_lem (some q) from = rw (iq_types_lem (value_of (codes "type") atts))

  named_lem :
      (m p i : Bool) (from : Option IksId)
      → let tmp = value_of (codes "type") atts in
        let pak = plain_pak (some x) from (value_of (codes "id") atts) in
        (if m
            then pure (message_pak tmp pak)
            else if p
            then presence_pak fuel (some x) tmp pak
            else if i
            then iq_pak fuel (some x) tmp pak
            else pure pak)
          h
        ≡ ok (named m p i from) h
  named_lem true p i from = rw (message_types_lem (value_of (codes "type") atts))
  named_lem false true i from = presence_pak_lem (value_of (codes "type") atts) _ refl
  named_lem false false true from =
      iq_pak-query_in (value_of (codes "type") atts) _
      ∙ ap (λ r. ok r h) (with_query_lem (query_in kids) from)
  named_lem false false false from = refl

  pak_by_name-packet_of :
      (from : Option IksId)
      → pak_by_name fuel
          (some x)
          (value_of (codes "type") atts)
          own
          (plain_pak (some x) from (value_of (codes "id") atts))
          h
        ≡ ok (packet_of x own atts kids from) h
  unfolding pak_by_name
  pak_by_name-packet_of from =
      named_lem (eq_bytes own (codes "message")) (eq_bytes own (codes "presence"))
        (eq_bytes own (codes "iq")) from

  -- `iks_packet` behind the identifier of the sender
  pak_found :
      (from : Option IksId)
      → length atts ≤ fuel
      → (do
        id ← iks_find_attrib fuel (some x) (codes "id")
        tmp ← iks_find_attrib fuel (some x) (codes "type")
        name ← iks_name (some x)
        n ← non_null name
        pak ← pak_by_name fuel (some x) tmp n (plain_pak (some x) from id)
        pure (some pak))
          h
        ≡ ok (some (packet_of x own atts kids from)) h
  unfolding iks_name load
  pak_found from le =
      let value = λ (name : Bytes).
        iks_find_attrib-value_of h s name fuel bound x parent prev next own atts kids le e in
      rw (
        value (codes "id"),
        value (codes "type"),
        iks_name,
        load,
        e.here,
        pak_by_name-packet_of from,
      )

-- Requests only: what follows may be replaced by what it computes on the same nodes.
behind_requests :
    {A B : Type 0} (h : Heap) (r : Run A) (f g : A → Cmd B)
    → Asks h r
    → ((a : A) (n : ℕ) → f a (record h { fresh = n }) ≡ g a (record h { fresh = n }))
    → and_then r f ≡ and_then r g
behind_requests h _ f g (asked a n) same = same a n
behind_requests h _ f g crashes same = refl

-- On an element that the nodes hold, with fuel for its attributes, and for its children and their
-- attributes, `iks_packet` does as much as to ask for memory, then to split the sender by `iks_id_new`,
-- and to return what the name, the attributes and the children say: NULL where the first request is
-- refused, and as `iks_id_new` ends where one of its requests is.
pub iks_packet-packet_of :
    (h : Heap) (fuel bound s x : ℕ) (parent prev next : Ptr) (own : Bytes) (atts : List Att)
    (kids : Forest)
    → length atts ≤ fuel
    → fuel_in kids ≤ fuel
    → Element h.node bound s x parent prev next own atts kids
    → iks_packet fuel (some x) h
      ≡ (do
        area ← request
        if_null area (pure none) λ _. do
          from ← iks_id_new (value_of (codes "from") atts)
          pure (some (packet_of x own atts kids from)))
          h
unfolding iks_packet iks_stack load request
iks_packet-packet_of h fuel bound s x parent prev next own atts kids le few e =
    let h1 = record h { fresh = suc h.fresh } in
    elim (Bool-cases (h.grants h.fresh)) [
      | inr g ↦ rw (iks_packet, iks_stack, load, e.here, request, g)
      | inl g ↦
          rw
            (
              iks_packet,
              iks_stack,
              load,
              e.here,
              request,
              g,
              iks_find_attrib-value_of h1 s (codes "from") fuel bound x parent prev next own atts
                  kids le e,
            )
            (behind_requests h1 (iks_id_new (value_of (codes "from") atts) h1) _ _
              (iks_id_new-Asks (value_of (codes "from") atts) h1)
              λ from n.
                pak_found (record h { fresh = n }) fuel bound s x parent prev next own atts kids e
                  few from le)
    ]
