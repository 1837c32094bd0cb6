-- ===== src/Jabber/Make.antt =====
-- The stanzas that src/jabber.c makes, `iks_make_auth` to `iks_make_session`.
use iksemel.Base.{ℕ, true, false, Option, none, some, [], ◌∷◌, Bytes, codes, strlen}
use iksemel.Sha.{sha_hash, sha_print, sha_reset}
use iksemel.Iks.Heap.{Ptr, Cmd, pure, ◌>>=◌, ◌>>◌, if_null, non_null, skip}
use iksemel.Iks.Create.{iks_new, iks_insert, iks_insert_attrib, iks_insert_cdata}
use iksemel.Jabber.Id.{IksId}
use iksemel.Jabber.Packet.{
  SubType, type_error, type_chat, type_groupchat, type_headline, type_get, type_set, type_result,
  type_subscribe, type_subscribed, type_unsubscribe, type_unsubscribed, type_probe, Show,
  show_unavailable, show_chat, show_away, show_xa, show_dnd,
}

-- `if (v) iks_insert_attrib (x, name, v);`
unfoldable pub maybe_attrib : ℕ → Ptr → Bytes → Option Bytes → Cmd (Unit {0})
unfolding iks_insert_attrib
maybe_attrib fuel x name none = skip
maybe_attrib fuel x name (some v) = do iks_insert_attrib fuel x name (some v); skip

-- `iks_insert_cdata (iks_insert (x, name), text, 0)`
unfoldable pub text_child : Ptr → Bytes → Option Bytes → Cmd (Unit {0})
unfolding iks_insert iks_insert_cdata
text_child x name text = do y ← iks_insert x (some name); iks_insert_cdata y text 0; skip

-- the same, where the text is not NULL
unfoldable pub maybe_child : Ptr → Bytes → Option Bytes → Cmd (Unit {0})
unfolding text_child
maybe_child x name none = skip
maybe_child x name (some text) = text_child x name (some text)

-- the digest of the session's identifier and the password
unfoldable pub auth_digest : Bytes → Bytes → Option Bytes
unfolding sha_hash sha_print
auth_digest sid pass = elim (sha_hash sha_reset (some sid) (strlen sid) false) [
  | none ↦ none
  | some s ↦ elim (sha_hash s (some pass) (strlen pass) true) [
    | none ↦ none
    | some d ↦ some (sha_print d.hash)
  ]
]

unfoldable pub iks_make_auth : ℕ → IksId → Bytes → Option Bytes → Cmd Ptr
unfolding iks_new iks_insert iks_insert_attrib text_child iks_insert_cdata auth_digest
iks_make_auth fuel id pass sid = do
  x ← iks_new (some (codes "iq"))
  iks_insert_attrib fuel x (codes "type") (some (codes "set"))
  y ← iks_insert x (some (codes "query"))
  iks_insert_attrib fuel y (codes "xmlns") (some (codes "jabber:iq:auth"))
  text_child y (codes "username") id.user
  text_child y (codes "resource") id.resource
  if_null sid (text_child y (codes "password") (some pass)) λ text. do
    digest ← non_null (auth_digest text pass)
    z ← iks_insert y (some (codes "digest"))
    iks_insert_cdata z (some digest) 40
    skip
  pure x

abbrev pub message_type : SubType → Option Bytes
message_type type_chat = some (codes "chat")
message_type type_groupchat = some (codes "groupchat")
message_type type_headline = some (codes "headline")
message_type _ = none

unfoldable pub iks_make_msg : ℕ → SubType → Option Bytes → Option Bytes → Cmd Ptr
unfolding iks_new maybe_attrib maybe_child
iks_make_msg fuel type to body = do
  x ← iks_new (some (codes "message"))
  maybe_attrib fuel x (codes "type") (message_type type)
  maybe_attrib fuel x (codes "to") to
  maybe_child x (codes "body") body
  pure x

abbrev pub s10n_type : SubType → Option Bytes
s10n_type type_subscribe = some (codes "subscribe")
s10n_type type_subscribed = some (codes "subscribed")
s10n_type type_unsubscribe = some (codes "unsubscribe")
s10n_type type_unsubscribed = some (codes "unsubscribed")
s10n_type type_probe = some (codes "probe")
s10n_type _ = none

unfoldable pub iks_make_s10n : ℕ → SubType → Option Bytes → Option Bytes → Cmd Ptr
unfolding iks_new maybe_attrib maybe_child
iks_make_s10n fuel type to msg = do
  x ← iks_new (some (codes "presence"))
  maybe_attrib fuel x (codes "type") (s10n_type type)
  maybe_attrib fuel x (codes "to") to
  maybe_child x (codes "status") msg
  pure x

abbrev pub show_text : Show → Option Bytes
show_text show_chat = some (codes "chat")
show_text show_away = some (codes "away")
show_text show_xa = some (codes "xa")
show_text show_dnd = some (codes "dnd")
show_text _ = none

abbrev pub show_type : Show → Option Bytes
show_type show_unavailable = some (codes "unavailable")
show_type _ = none

unfoldable pub iks_make_pres : ℕ → Show → Option Bytes → Cmd Ptr
unfolding iks_new maybe_attrib maybe_child
iks_make_pres fuel show status = do
  x ← iks_new (some (codes "presence"))
  maybe_attrib fuel x (codes "type") (show_type show)
  maybe_child x (codes "show") (show_text show)
  maybe_child x (codes "status") status
  pure x

abbrev pub iq_type : SubType → Option Bytes
iq_type type_get = some (codes "get")
iq_type type_set = some (codes "set")
iq_type type_result = some (codes "result")
iq_type type_error = some (codes "error")
iq_type _ = none

unfoldable pub iks_make_iq : ℕ → SubType → Option Bytes → Cmd Ptr
unfolding iks_new iks_insert iks_insert_attrib maybe_attrib
iks_make_iq fuel type xmlns = do
  x ← iks_new (some (codes "iq"))
  maybe_attrib fuel x (codes "type") (iq_type type)
  y ← iks_insert x (some (codes "query"))
  iks_insert_attrib fuel y (codes "xmlns") xmlns
  pure x

-- the resource, unless it is NULL or empty
abbrev pub some_text : Option Bytes → Option Bytes
some_text none = none
some_text (some []) = none
some_text (some (c ∷ s)) = some (c ∷ s)

unfoldable pub iks_make_resource_bind : ℕ → IksId → Cmd Ptr
unfolding iks_new iks_insert iks_insert_attrib maybe_child
iks_make_resource_bind fuel id = do
  x ← iks_new (some (codes "iq"))
  iks_insert_attrib fuel x (codes "type") (some (codes "set"))
  y ← iks_insert x (some (codes "bind"))
  iks_insert_attrib fuel y (codes "xmlns") (some (codes "urn:ietf:params:xml:ns:xmpp-bind"))
  maybe_child y (codes "resource") (some_text id.resource)
  pure x

unfoldable pub iks_make_session : ℕ → Cmd Ptr
unfolding iks_new iks_insert iks_insert_attrib
iks_make_session fuel = do
  x ← iks_new (some (codes "iq"))
  iks_insert_attrib fuel x (codes "type") (some (codes "set"))
  y ← iks_insert x (some (codes "session"))
  iks_insert_attrib fuel y (codes "xmlns") (some (codes "urn:ietf:params:xml:ns:xmpp-session"))
  pure x
