-- ===== src/Stream/Sasl.antt =====
-- The SASL answers of src/stream.c: `iks_sasl_challenge` and `iks_start_sasl`.
use iksemel.Base.{
  ℕ, zero, suc, ◌+◌, ◌*◌, ◌/◌, ◌%◌, ◌==◌, ◌&&◌, not, true, false, if◌then◌else◌, Option, none, some,
  List, [], ◌∷◌, ◌++◌, concat, Bytes, codes, length, take, drop, set, get_or, strlen,
}
use iksemel.Sax.Types.{iks_ok}
use iksemel.Utility.Strings.{iks_strlen}
use iksemel.Utility.Escape.{starts_with}
use iksemel.Base64.{null, outside, overrun, text, base64_encode, base64_decode}
use iksemel.Md5.{Md5, md5_reset, md5_hash, md5_digest, md5_print, md5_new}
use iksemel.Iks.Heap.{Ptr}
use iksemel.Iks.Create.{iks_new, iks_insert_cdata, iks_insert_attrib, iks_delete}
use iksemel.Iks.Move.{iks_child}
use iksemel.Iks.Info.{text_of}
use iksemel.Stream.Types.{
  iks_net_notsupp, SaslType, iks_sasl_plain, iks_sasl_digest_md5, other_sasl, StreamData, Act,
  return, broken_off, ◌>>=◌, ◌>>◌, on_heap, ask, put, nothing, Outside,
}
use iksemel.Stream.Types
use iksemel.Stream.Send.{print_into, iks_send}

abbrev pub xmpp_sasl : Bytes
xmpp_sasl = codes "urn:ietf:params:xml:ns:xmpp-sasl"

-- `strstr (hay, needle)`, as an offset
unfoldable pub strstr : Bytes → Bytes → Option ℕ
strstr [] needle = if starts_with needle [] then some 0 else none
strstr (c ∷ hay) needle =
    let rest = strstr hay needle in
    if starts_with needle (c ∷ hay)
    then some 0
    else elim rest [ none ↦ none | some i ↦ some (suc i) ]

-- The loop of `parse_digest` behind the key: the offset of the quote that ends the value, from `t` on.
unfoldable pub closing_quote : Bytes → Option ℕ
closing_quote [] = none
closing_quote (a ∷ []) = none
closing_quote (a ∷ b ∷ t) =
    let rest = closing_quote (b ∷ t) in
    if not (a == 0x5c) && b == 0x22
    then some 1
    else elim rest [ none ↦ none | some i ↦ some (suc i) ]

-- `parse_digest`: the places of the value and of its end
unfoldable pub parse_digest : Bytes → Bytes → Option ℕ × Option ℕ
unfolding strstr closing_quote
parse_digest message key = elim (strstr message key) [
  | none ↦ (none, none)
  | some i ↦
      let value = i + length key in
      (
        some value,
        elim (closing_quote (drop value message)) [ none ↦ none | some n ↦ some (value + n) ],
      )
]

-- the string at a place of an area
abbrev pub string_from : Bytes → ℕ → Bytes
string_from area i = take (strlen (drop i area)) (drop i area)

-- The realm and the nonce of a message, where NULs are written behind both; without a realm it is
-- the server. `none` where `make_sasl_response` returns NULL.
unfoldable pub realm_nonce : Bytes → Option Bytes → Option (Option Bytes × Bytes)
unfolding parse_digest
realm_nonce message server =
    let realm = parse_digest message (codes "realm=\"") in
    let nonce = parse_digest message (codes "nonce=\"") in
    elim nonce.0 [
      | none ↦ none
      | some n ↦ elim nonce.1 [
        | none ↦ none
        | some e ↦
            let ended = set message e 0 in
            elim realm.0 [
              | none ↦ some (server, string_from ended n)
              | some r ↦ elim realm.1 [
                | none ↦ none
                | some f ↦
                    let area = set ended f 0 in some (some (string_from area r), string_from area n)
              ]
            ]
      ]
    ]

-- `sprintf (…, "%08x", n)`
abbrev pub hex_digits : ℕ → ℕ → Bytes → Bytes
hex_digits zero n rest = rest
hex_digits (suc k) n rest =
    hex_digits k (n / 16) (get_or (codes "0123456789abcdef") (n % 16) 0 ∷ rest)

-- the loop that makes the challenge of the client, `count` calls of `rand`
unfoldable pub make_cnonce : {W : Type 0} → Outside W → ℕ → Act W Bytes
make_cnonce o zero = return []
make_cnonce o (suc count) = do
  n ← Types.outside o.rand
  rest ← make_cnonce o count
  return (hex_digits 8 n [] ++ rest)

-- some calls of `iks_md5_hash`, the last of them with `finish`, from a new or a reset state
unfoldable pub hash_all : Md5 → List (Option Bytes) → Md5
hash_all m [] = m
hash_all m (none ∷ []) = md5_hash m [] 0 true
hash_all m (some s ∷ []) = md5_hash m s (length s) true
hash_all m (none ∷ b ∷ rest) = hash_all (md5_hash m [] 0 false) (b ∷ rest)
hash_all m (some s ∷ b ∷ rest) = hash_all (md5_hash m s (length s) false) (b ∷ rest)

abbrev pub colon : Option Bytes
colon = some (codes ":")

-- `response_value`: the digits of the last hash
unfoldable pub response_value :
    Option Bytes → Option Bytes → Option Bytes → Option Bytes → Bytes → Bytes → Bytes
unfolding hash_all
response_value username pass server realm nonce cnonce =
    let a1_h =
      md5_digest (hash_all md5_reset (username ∷ colon ∷ realm ∷ colon ∷ pass ∷ [])).state in
    let a1 = md5_print (
      md5_digest
        (hash_all md5_reset (some a1_h ∷ colon ∷ some nonce ∷ colon ∷ some cnonce ∷ [])).state) in
    let a2 =
      md5_print
        (md5_digest (hash_all md5_reset (some (codes "AUTHENTICATE:xmpp/") ∷ server ∷ [])).state) in
    md5_print (
      md5_digest
        (hash_all md5_reset (
          some a1
          ∷ colon
          ∷ some nonce
          ∷ some (codes ":00000001:")
          ∷ some cnonce
          ∷ some (codes ":auth:")
          ∷ some a2
          ∷ [])).state)

abbrev pub response_text : Bytes → Bytes → Bytes → Bytes → Bytes → Bytes → Bytes
response_text username realm nonce cnonce server value = concat (
    codes "username=\""
    ∷ username
    ∷ codes "\",realm=\""
    ∷ realm
    ∷ codes "\",nonce=\""
    ∷ nonce
    ∷ codes "\",cnonce=\""
    ∷ cnonce
    ∷ codes "\",nc=00000001,qop=auth,digest-uri=\"xmpp/"
    ∷ server
    ∷ codes "\",response="
    ∷ value
    ∷ codes ",charset=utf-8"
    ∷ [])

-- a string that `%s` prints, which must not be NULL
abbrev pub not_null : {W A : Type 0} → Option A → Act W A
not_null none = broken_off
not_null (some a) = return a

-- the string in front of the NUL
abbrev pub string_of : Bytes → Bytes
string_of area = take (strlen area) area

-- `iks_base64_encode` as a string
unfoldable pub encode : {W : Type 0} → Outside W → Bytes → ℕ → Act W (Option Bytes)
encode o area len = elim (base64_encode o.malloc area len) [
  | null ↦ return none
  | outside ↦ broken_off
  | overrun ↦ broken_off
  | text s ↦ return (some (string_of s))
]

-- the end of `make_sasl_response`: the element with the code of the text
unfoldable pub response_element : {W : Type 0} → Outside W → Bytes → Act W Ptr
unfolding encode
response_element o response = do
  coded ← encode o response 0
  elim coded [
    | none ↦ return none
    | some c ↦ do
      x ← on_heap (iks_new (some (codes "response")))
      on_heap (iks_insert_cdata x (some c) 0)
      return x
  ]

-- `make_sasl_response` behind the last hash
unfoldable pub respond : {W : Type 0} → Outside W → Option Bytes → Bytes → Bytes → Bytes → Act W Ptr
unfolding response_element
respond o realm nonce cnonce value = do
  d ← ask
  let i =
      iks_strlen d.auth_username
      + iks_strlen realm
      + length nonce
      + iks_strlen d.server
      + 4 * 8
      + 136
  if o.malloc i
      then (do
        username ← not_null d.auth_username
        given ← not_null realm
        server ← not_null d.server
        let response = response_text username given nonce cnonce server value
        print_into i response
        response_element o response)
      else return none

-- `make_sasl_response` from the challenge of the client on
unfoldable pub answer : {W : Type 0} → Outside W → Option Bytes → Bytes → Act W Ptr
unfolding response_value respond
answer o realm nonce = do
  cnonce ← make_cnonce o 4
  elim (md5_new o.malloc) [
    | none ↦ return none
    | some md5 ↦ do
      d ← ask
      respond o realm nonce cnonce
          (response_value d.auth_username d.auth_pass d.server realm nonce cnonce)
  ]

-- `make_sasl_response`
unfoldable pub make_sasl_response : {W : Type 0} → Outside W → Bytes → Act W Ptr
unfolding realm_nonce answer
make_sasl_response o message = do
  d ← ask
  elim (realm_nonce message d.server) [ none ↦ return none | some r ↦ answer o r.0 r.1 ]

-- the answer to a challenge, as an element that is sent and deleted
unfoldable pub reply : {W : Type 0} → Outside W → ℕ → Ptr → Act W (Unit {0})
unfolding iks_send
reply o fuel none = nothing
reply o fuel (some x) = do
  on_heap (iks_insert_attrib fuel (some x) (codes "xmlns") (some xmpp_sasl))
  iks_send o fuel (some x)
  on_heap (iks_delete (some x))

unfoldable pub iks_sasl_challenge : {W : Type 0} → Outside W → ℕ → Ptr → Act W (Unit {0})
unfolding strstr make_sasl_response reply
iks_sasl_challenge o fuel challenge = do
  child ← on_heap (iks_child challenge)
  tmp ← on_heap (text_of child)
  elim tmp [
    | none ↦ nothing
    | some blob ↦ elim (base64_decode o.malloc (some blob)) [
      | none ↦ nothing
      | some area ↦ do
        let message = string_of area
        x ← elim (strstr message (codes "rspauth")) [
          | some i ↦ on_heap (iks_new (some (codes "response")))
          | none ↦ make_sasl_response o message
        ]
        reply o fuel x
    ]
  ]

-- the case IKS_SASL_PLAIN of `iks_start_sasl`, in which the two strings must not be NULL
unfoldable pub put_plain : {W : Type 0} → Outside W → ℕ → Ptr → Bytes → Bytes → Act W (Unit {0})
unfolding encode
put_plain o fuel x username pass = do
  let len = length username + length pass + 2
  on_heap (iks_insert_attrib fuel x (codes "mechanism") (some (codes "PLAIN")))
  let s = 0 ∷ username ++ 0 ∷ pass
  if o.malloc (80 + len) then print_into (80 + len) s else broken_off
  base64 ← encode o s len
  on_heap (iks_insert_cdata x base64 0)
  nothing

-- the case IKS_SASL_DIGEST_MD5
unfoldable pub put_digest : {W : Type 0} → ℕ → Ptr → Bytes → Bytes → Act W (Unit {0})
put_digest fuel x username pass = do
  on_heap (iks_insert_attrib fuel x (codes "mechanism") (some (codes "DIGEST-MD5")))
  put λ d. record d { auth_username = some username; auth_pass = some pass }

-- the end of `iks_start_sasl`
unfoldable pub send_auth : {W : Type 0} → Outside W → ℕ → Ptr → Act W ℕ
unfolding iks_send
send_auth o fuel x = do iks_send o fuel x; on_heap (iks_delete x); return iks_ok

-- the beginning of `iks_start_sasl`
unfoldable pub new_auth : {W : Type 0} → ℕ → Act W Ptr
new_auth fuel = do
  x ← on_heap (iks_new (some (codes "auth")))
  on_heap (iks_insert_attrib fuel x (codes "xmlns") (some xmpp_sasl))
  return x

unfoldable pub iks_start_sasl : {W : Type 0} → Outside W → ℕ → SaslType → Bytes → Bytes → Act W ℕ
unfolding new_auth put_plain put_digest send_auth
iks_start_sasl o fuel type username pass = do
  x ← new_auth fuel
  elim type [
    | iks_sasl_plain ↦ do put_plain o fuel x username pass; send_auth o fuel x
    | iks_sasl_digest_md5 ↦ do put_digest fuel x username pass; send_auth o fuel x
    | other_sasl n ↦ do on_heap (iks_delete x); return iks_net_notsupp
  ]
