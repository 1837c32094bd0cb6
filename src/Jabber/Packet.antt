-- ===== src/Jabber/Packet.antt =====
-- `iks_packet` of src/jabber.c: what a stanza is about.
use iksemel.Base.{
  ℕ, zero, suc, if◌then◌else◌, Option, none, some, List, [], ◌∷◌, Bytes, codes, eq_bytes,
}
use iksemel.Iks.Heap.{Ptr, Cmd, pure, starve, ◌>>=◌, if_null, non_null, request}
use iksemel.Iks.Create.{is_tag}
use iksemel.Iks.Move.{iks_child, iks_next}
use iksemel.Iks.Find.{iks_find_attrib, iks_find_cdata}
use iksemel.Iks.Info.{iks_stack, iks_type, iks_name}
use iksemel.Jabber.Id.{IksId}
use iksemel.Jabber.Ask.{iks_id_new}

-- `enum ikspaktype`, `enum iksubtype` and `enum ikshowtype`
pub data PakType : Type 0 where
  pak_none pak_message pak_presence pak_iq pak_s10n : PakType

pub data SubType : Type 0 where
  type_none type_error type_chat type_groupchat type_headline type_get type_set type_result :
      SubType
  type_subscribe type_subscribed type_unsubscribe type_unsubscribed type_available : SubType
  type_unavailable type_probe : SubType

pub data Show : Type 0 where
  show_unavailable show_available show_chat show_away show_xa show_dnd : Show

-- `struct ikspak_struct`
pub record Ikspak : Type 0 where
  pub x : Ptr
  pub from : Option IksId
  pub query : Ptr
  pub ns : Option Bytes
  pub id : Option Bytes
  pub type : PakType
  pub subtype : SubType
  pub show : Show

-- a chain of `if (strcmp (tmp, "…") == 0)`
abbrev pub pick : {A : Type 0} → List (Bytes × A) → A → Bytes → A
pick [] other tmp = other
pick ((key, a) ∷ table) other tmp =
    let rest = pick table other tmp in if eq_bytes tmp key then a else rest

abbrev pub pick_from : {A : Type 0} → List (Bytes × A) → A → Option Bytes → A
pick_from table other none = other
pick_from table other (some tmp) = pick table other tmp

abbrev pub message_types : List (Bytes × SubType)
message_types =
    (codes "chat", type_chat)
    ∷ (codes "groupchat", type_groupchat)
    ∷ (codes "headline", type_headline)
    ∷ (codes "error", type_error)
    ∷ []

abbrev pub presence_types : List (Bytes × (PakType × SubType × Show))
presence_types =
    (codes "unavailable", (pak_presence, type_unavailable, show_unavailable))
    ∷ (codes "probe", (pak_presence, type_probe, show_unavailable))
    ∷ (codes "subscribe", (pak_s10n, type_subscribe, show_unavailable))
    ∷ (codes "subscribed", (pak_s10n, type_subscribed, show_unavailable))
    ∷ (codes "unsubscribe", (pak_s10n, type_unsubscribe, show_unavailable))
    ∷ (codes "unsubscribed", (pak_s10n, type_unsubscribed, show_unavailable))
    ∷ (codes "error", (pak_s10n, type_error, show_unavailable))
    ∷ []

abbrev pub shows : List (Bytes × Show)
shows =
    (codes "chat", show_chat)
    ∷ (codes "away", show_away)
    ∷ (codes "xa", show_xa)
    ∷ (codes "dnd", show_dnd)
    ∷ []

abbrev pub iq_types : List (Bytes × SubType)
iq_types =
    (codes "get", type_get)
    ∷ (codes "set", type_set)
    ∷ (codes "result", type_result)
    ∷ (codes "error", type_error)
    ∷ []

-- `pak` behind the `memset`, with what does not depend on the kind of the stanza
abbrev pub plain_pak : Ptr → Option IksId → Option Bytes → Ikspak
plain_pak x from id = record {
  x = x;
  from = from;
  query = none;
  ns = none;
  id = id;
  type = pak_none;
  subtype = type_none;
  show = show_unavailable;
}

abbrev pub message_pak : Option Bytes → Ikspak → Ikspak
message_pak tmp pak = record pak {
  type = pak_message;
  subtype = pick_from message_types type_none tmp;
}

-- a presence with a type
abbrev pub typed_presence : Bytes → Ikspak → Ikspak
typed_presence tmp pak =
    let (type, subtype, show) = pick presence_types (pak_s10n, type_none, show_unavailable) tmp in
    record pak { type = type; subtype = subtype; show = show }

-- a presence without one, whose element `show` has this text
abbrev pub shown_presence : Option Bytes → Ikspak → Ikspak
shown_presence tmp pak = record pak {
  type = pak_presence;
  subtype = type_available;
  show = pick_from shows show_available tmp;
}

unfoldable pub presence_pak : ℕ → Ptr → Option Bytes → Ikspak → Cmd Ikspak
unfolding iks_find_cdata
presence_pak fuel x none pak = do
  show ← iks_find_cdata fuel x (codes "show")
  pure (shown_presence show pak)
presence_pak fuel x (some tmp) pak = pure (typed_presence tmp pak)

-- the child from `q` on that has a namespace
unfoldable pub find_query : ℕ → Ptr → Cmd (Option (ℕ × Bytes))
unfolding iks_type iks_find_attrib iks_next
find_query fuel none = pure none
find_query zero (some q) = starve
find_query (suc fuel) (some q) = do
  type ← iks_type (some q)
  ns ← if is_tag type then iks_find_attrib fuel (some q) (codes "xmlns") else pure none
  if_null ns (do next ← iks_next (some q); find_query fuel next) λ n. pure (some (q, n))

abbrev pub with_query : Option (ℕ × Bytes) → Ikspak → Ikspak
with_query none pak = pak
with_query (some (q, ns)) pak = record pak { query = some q; ns = some ns }

abbrev pub typed_iq : Option Bytes → Ikspak → Ikspak
typed_iq tmp pak = record pak { type = pak_iq; subtype = pick_from iq_types type_none tmp }

unfoldable pub iq_pak : ℕ → Ptr → Option Bytes → Ikspak → Cmd Ikspak
unfolding iks_child find_query
iq_pak fuel x tmp pak = do
  child ← iks_child x
  found ← find_query fuel child
  pure (with_query found (typed_iq tmp pak))

-- the tests of the name
unfoldable pub pak_by_name : ℕ → Ptr → Option Bytes → Bytes → Ikspak → Cmd Ikspak
unfolding presence_pak iq_pak
pak_by_name fuel x tmp name pak =
    if eq_bytes name (codes "message")
    then pure (message_pak tmp pak)
    else if eq_bytes name (codes "presence")
    then presence_pak fuel x tmp pak
    else if eq_bytes name (codes "iq")
    then iq_pak fuel x tmp pak
    else pure pak

unfoldable pub iks_packet : ℕ → Ptr → Cmd (Option Ikspak)
unfolding iks_stack request iks_find_attrib iks_id_new iks_name pak_by_name
iks_packet fuel x = do
  s ← iks_stack x
  stack ← non_null s
  area ← request
  if_null area (pure none) λ _. do
    sender ← iks_find_attrib fuel x (codes "from")
    from ← iks_id_new sender
    id ← iks_find_attrib fuel x (codes "id")
    tmp ← iks_find_attrib fuel x (codes "type")
    own ← iks_name x
    name ← non_null own
    pak ← pak_by_name fuel x tmp name (plain_pak x from id)
    pure (some pak)
