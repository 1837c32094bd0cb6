-- ===== src/Sax/Core/Chars.antt =====
-- The start of a round of the loop of `sax_core` in src/sax.c: the checks of a byte, the UTF-8 state,
-- and what a round hands to the next.
use iksemel.Base.{
  ℕ, ◌+◌, ◌*◌, ◌%◌, ◌^◌, bit_and, Bool, true, false, not, ◌||◌, ◌==◌, ltb, if◌then◌else◌, Option,
  none, some, Bytes, codes, eq_bytes,
}
use iksemel.Sax.Types.{
  Context, c_tag, c_tag_end, c_attribute, c_attribute_1, c_value_apos, c_value_quot, TagType,
  iks_close, Parser, Locals, Outcome, ok, err, iks_badxml, add32,
}

-- What a round hands to the next: `re`, whether the byte is looked at again, the locals, the parser.
pub record Round (U : Type 0) : Type 0 where
  pub re : Bool
  pub locals : Locals
  pub prs : Parser U

abbrev pub go_on : {U : Type 0} → Locals → Parser U → Outcome U (Round U)
go_on l p = ok (record { re = false; locals = l; prs = p })

abbrev pub again : {U : Type 0} → Locals → Parser U → Outcome U (Round U)
again l p = ok (record { re = true; locals = l; prs = p })

abbrev pub bad_xml : {U A : Type 0} → Parser U → Outcome U A
bad_xml p = err iks_badxml p

abbrev pub none_pending : Locals → Locals
none_pending l = record l { stack_old = none }

-- `if (stack_old == -1) stack_old = pos;`
abbrev pub start_pending : ℕ → Locals → Locals
start_pending pos l = elim l.stack_old [ none ↦ record l { stack_old = some pos } | some i ↦ l ]

-- `IS_WHITESPACE`, and `NOT_WHITESPACE` is its negation
unfoldable pub is_whitespace : ℕ → Bool
is_whitespace c = c == b' ' || c == b'\t' || c == b'\r' || c == b'\n'

-- The least value that the security check lets pass for a sequence of this many bytes.
abbrev pub least_value : ℕ → ℕ
least_value n =
    if n == 2
    then 0x80
    else if n == 3
    then 0x7ff
    else if n == 4
    then 0xffff
    else if n == 5
    then 0x1fffff
    else if n == 6
    then 0x3ffffff
    else 0

-- what may follow the blanks behind a tag's name
abbrev pub after_name : TagType → Context
after_name iks_close = c_tag_end
after_name _ = c_attribute

-- `if (prs->uni_max) { … }`: a byte inside a multi-byte sequence
unfoldable pub utf8_next : {U : Type 0} → ℕ → Parser U → Outcome U (Parser U)
utf8_next c p =
    if not (bit_and c 0xc0 == 0x80)
    then bad_xml p
    else let value = add32 ((p.uni_char * 2 ^ 6) % 2 ^ 32) (bit_and c 0x3f) in
      let q = record p { uni_char = value; uni_len = p.uni_len + 1 } in
      if not (q.uni_len == q.uni_max)
      then ok q
      else if ltb value (least_value q.uni_max)
      then bad_xml q
      else ok (record q { uni_max = 0; uni_char = 0 })

-- `uni_max` and `mask` for the first byte of a sequence; `none` for a byte that starts none
unfoldable pub utf8_lead : ℕ → Option (ℕ × ℕ)
utf8_lead c =
    if bit_and c 0x60 == 0x40
    then some (2, 0x1f)
    else if bit_and c 0x70 == 0x60
    then some (3, 0x0f)
    else if bit_and c 0x78 == 0x70
    then some (4, 0x07)
    else if bit_and c 0x7c == 0x78
    then some (5, 0x03)
    else if bit_and c 0x7e == 0x7c
    then some (6, 0x01)
    else none

-- the contexts in which the first byte of a sequence starts a pending piece of a token
abbrev pub keeps_pending : Context → Bool
keeps_pending c_tag = true
keeps_pending c_attribute_1 = true
keeps_pending c_value_apos = true
keeps_pending c_value_quot = true
keeps_pending _ = false

-- `if (c & 0x80) { … }`: the first byte of a sequence
unfoldable pub utf8_first : {U : Type 0} → ℕ → ℕ → Locals → Parser U → Outcome U (Round U)
utf8_first c pos l p = elim (utf8_lead c) [
  | none ↦ bad_xml p
  | some (n, mask) ↦
      go_on (if keeps_pending p.context then start_pending pos l else l)
        (record p { uni_max = n; uni_char = bit_and c mask; uni_len = 1 })
]

-- the replacement for the name of an entity
unfoldable pub entity_char : Bytes → ℕ
entity_char name =
    if eq_bytes name (codes "amp")
    then b'&'
    else if eq_bytes name (codes "quot")
    then b'"'
    else if eq_bytes name (codes "apos")
    then 0x27
    else if eq_bytes name (codes "lt")
    then b'<'
    else if eq_bytes name (codes "gt")
    then b'>'
    else b'?'
