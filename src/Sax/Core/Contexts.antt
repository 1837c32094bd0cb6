-- ===== src/Sax/Core/Contexts.antt =====
-- The switch over the context in `sax_core` of src/sax.c, one function for each case.
use iksemel.Base.{
  ℕ, ◌+◌, bit_and, Bool, true, false, not, ◌||◌, ◌==◌, ltb, leb, if◌then◌else◌, none, some, [], ◌∷◌,
  ◌++◌, Bytes, codes, length,
}
use iksemel.Sax.Types.{
  Context, c_cdata, c_tag_start, c_tag, c_tag_end, c_attribute, c_attribute_1, c_attribute_2,
  c_value, c_value_apos, c_value_quot, c_whitespace, c_entity, c_comment, c_comment_1, c_comment_2,
  c_comment_3, c_markup, c_markup_1, c_sect, c_sect_cdata, c_sect_cdata_1, c_sect_cdata_2,
  c_sect_cdata_3, c_sect_cdata_4, c_sect_cdata_c, c_sect_cdata_e, c_sect_cdata_e2, c_pi, iks_open,
  iks_close, iks_single, Env, Parser, Locals, Outcome, ok, fault, ◌>>=◌,
}
use iksemel.Sax.Token.{stack_init, end_token, set_att, atts_room, call_cdata, flush_cdata, call_tag}
use iksemel.Sax.Core.Chars.{
  Round, go_on, again, bad_xml, none_pending, start_pending, is_whitespace, after_name, utf8_next,
  utf8_first, entity_char,
}

module _ {U : Type 0} (env : Env U) (buf : Bytes) (c pos : ℕ) (l : Locals) (p : Parser U) where
  -- `goto` a context with nothing else changed
  abbrev to_context : Context → Outcome U (Round U)
  to_context ctx = go_on l (record p { context = ctx })

  -- the same for the contexts that start a new run of text behind this byte
  abbrev to_text : Context → Outcome U (Round U)
  to_text ctx = go_on (record l { old = pos + 1 }) (record p { context = ctx })

  unfoldable pub in_cdata : Outcome U (Round U)
  in_cdata =
      if c == b'&'
      then (do
        q ← flush_cdata env buf pos l p
        go_on l (record q { context = c_entity; entity = [] }))
      else if c == b'<'
      then (do
        q ← flush_cdata env buf pos l p
        r ← stack_init env q
        go_on l (record r { tag_name = some (length r.stack); context = c_tag_start }))
      else go_on l p

  unfoldable pub in_tag_start : Outcome U (Round U)
  in_tag_start =
      if c == b'/'
      then go_on l (record p { context = c_tag; tagtype = iks_close })
      else if c == b'?'
      then to_context c_pi
      else if c == b'!'
      then to_context c_markup
      else go_on (record l { stack_old = some pos })
          (record p { context = c_tag; tagtype = iks_open })

  -- the end of the tag's name, in the three branches of `C_TAG` that reach it
  unfoldable pub end_name : Bool → Parser U → Outcome U (Round U)
  end_name re q = do
    r ← end_token env buf pos l q
    ok (record { re = re; locals = none_pending l; prs = r })

  unfoldable pub in_tag : Outcome U (Round U)
  in_tag =
      if is_whitespace c
      then end_name false (record p { oldcontext = after_name p.tagtype; context = c_whitespace })
      else if c == b'/'
      then elim p.tagtype [
        | iks_close ↦ bad_xml p
        | _ ↦ end_name false (record p { tagtype = iks_single; context = c_tag_end })
      ]
      else if c == b'>'
      then end_name true (record p { context = c_tag_end })
      else go_on (start_pending pos l) p

  unfoldable pub in_tag_end : Outcome U (Round U)
  in_tag_end = if not (c == b'>') then bad_xml p else do
    q ← call_tag env p
    go_on (record { old = pos + 1; stack_old = none })
        (record q { stack = []; attcur = 0; attflag = 0; context = c_cdata })

  unfoldable pub in_attribute : Outcome U (Round U)
  in_attribute =
      if c == b'/'
      then go_on l (record p { tagtype = iks_single; context = c_tag_end })
      else if c == b'>'
      then again l (record p { context = c_tag_end })
      else do
        q ← atts_room env p
        r ← set_att q.attcur (some (length q.stack)) (record q { attflag = 1 })
        go_on (record l { stack_old = some pos }) (record r { context = c_attribute_1 })

  unfoldable pub in_attribute_1 : Outcome U (Round U)
  in_attribute_1 =
      if c == b'='
      then (do
        q ← end_token env buf pos l p
        go_on (none_pending l) (record q { context = c_value }))
      else if is_whitespace c
      then (do
        q ← end_token env buf pos l p
        go_on (none_pending l) (record q { oldcontext = c_attribute_1; context = c_whitespace }))
      else go_on (start_pending pos l) p

  unfoldable pub in_attribute_2 : Outcome U (Round U)
  in_attribute_2 =
      if c == b'/'
      then (do
        q ← set_att p.attcur none (record p { tagtype = iks_single })
        go_on l (record q { context = c_tag_end }))
      else if c == b'>'
      then (do q ← set_att p.attcur none p; again l (record q { context = c_tag_end }))
      else again l (record p { context = c_attribute })

  -- the quote that opens a value
  unfoldable pub open_quote : Parser U → Outcome U (Round U)
  open_quote q =
      if c == 0x27
      then go_on l (record q { context = c_value_apos })
      else if c == b'"'
      then go_on l (record q { context = c_value_quot })
      else bad_xml q

  unfoldable pub in_value : Outcome U (Round U)
  in_value =
      if is_whitespace c
      then go_on l p
      else do q ← set_att (p.attcur + 1) (some (length p.stack)) p; open_quote q

  -- what follows the value when its closing quote has been read
  unfoldable pub after_value : Parser U → Outcome U (Round U)
  after_value q =
      go_on (record l { stack_old = some pos })
        (record q { oldcontext = c_attribute_2; context = c_whitespace; attcur = q.attcur + 2 })

  -- `C_VALUE_APOS` and `C_VALUE_QUOT`. No `break` follows the end of the value, so the closing
  -- quote becomes the start of a pending piece.
  unfoldable pub in_quoted : ℕ → Outcome U (Round U)
  in_quoted quote =
      if c == quote
      then (do q ← end_token env buf pos l p; after_value q)
      else go_on (start_pending pos l) p

  unfoldable pub in_whitespace : Outcome U (Round U)
  in_whitespace =
      if not (is_whitespace c) then again l (record p { context = p.oldcontext }) else go_on l p

  -- `prs->entity[prs->entpos]` has eight places.
  unfoldable pub in_entity : Outcome U (Round U)
  in_entity =
      if leb 8 (length p.entity)
      then fault
      else if c == b';'
      then (do
        q ← call_cdata env (entity_char p.entity ∷ []) p
        go_on (record l { old = pos + 1 }) (record q { context = c_cdata }))
      else let q = record p { entity = p.entity ++ c ∷ [] } in
        if ltb 7 (length q.entity) then bad_xml q else go_on l q

  -- a context that takes one byte only
  unfoldable pub expect : ℕ → Context → Outcome U (Round U)
  expect wanted ctx = if not (c == wanted) then bad_xml p else to_context ctx

  unfoldable pub in_markup_1 : Outcome U (Round U)
  in_markup_1 = if c == b'>' then to_text c_cdata else go_on l p

  -- A byte that starts neither a section nor a comment falls through to `C_MARKUP_1`.
  unfoldable pub in_markup : Outcome U (Round U)
  in_markup =
      if c == b'['
      then to_context c_sect
      else if c == b'-'
      then to_context c_comment
      else if c == b'>'
      then to_text c_cdata
      else to_context c_markup_1

  unfoldable pub in_sect_cdata_c : Outcome U (Round U)
  in_sect_cdata_c =
      if c == b']'
      then (do q ← flush_cdata env buf pos l (record p { context = c_sect_cdata_e }); go_on l q)
      else go_on l p

  unfoldable pub in_sect_cdata_e : Outcome U (Round U)
  in_sect_cdata_e = if c == b']' then to_context c_sect_cdata_e2 else do
    q ← call_cdata env (codes "]") p
    go_on (record l { old = pos }) (record q { context = c_sect_cdata_c })

  unfoldable pub in_sect_cdata_e2 : Outcome U (Round U)
  in_sect_cdata_e2 =
      if c == b'>'
      then to_text c_cdata
      else if c == b']'
      then (do q ← call_cdata env (codes "]") p; go_on (record l { old = pos }) q)
      else do
        q ← call_cdata env (codes "]]") (record p { context = c_sect_cdata_c })
        go_on (record l { old = pos }) q

  -- `switch (prs->context)`
  unfoldable pub in_context : Context → Outcome U (Round U)
  in_context c_cdata = in_cdata
  in_context c_tag_start = in_tag_start
  in_context c_tag = in_tag
  in_context c_tag_end = in_tag_end
  in_context c_attribute = in_attribute
  in_context c_attribute_1 = in_attribute_1
  in_context c_attribute_2 = in_attribute_2
  in_context c_value = in_value
  in_context c_value_apos = in_quoted 0x27
  in_context c_value_quot = in_quoted b'"'
  in_context c_whitespace = in_whitespace
  in_context c_entity = in_entity
  in_context c_comment = expect b'-' c_comment_1
  in_context c_comment_1 = if c == b'-' then to_context c_comment_2 else go_on l p
  in_context c_comment_2 = to_context (if c == b'-' then c_comment_3 else c_comment_1)
  in_context c_comment_3 = if not (c == b'>') then bad_xml p else to_text c_cdata
  in_context c_markup = in_markup
  in_context c_markup_1 = in_markup_1
  in_context c_sect = expect b'C' c_sect_cdata
  in_context c_sect_cdata = expect b'D' c_sect_cdata_1
  in_context c_sect_cdata_1 = expect b'A' c_sect_cdata_2
  in_context c_sect_cdata_2 = expect b'T' c_sect_cdata_3
  in_context c_sect_cdata_3 = expect b'A' c_sect_cdata_4
  in_context c_sect_cdata_4 = if not (c == b'[') then bad_xml p else to_text c_sect_cdata_c
  in_context c_sect_cdata_c = in_sect_cdata_c
  in_context c_sect_cdata_e = in_sect_cdata_e
  in_context c_sect_cdata_e2 = in_sect_cdata_e2
  in_context c_pi = if c == b'>' then to_text c_cdata else to_text c_pi

  -- a round up to the label `cont`
  unfoldable pub examine : Outcome U (Round U)
  examine =
      if c == 0 || c == 0xfe || c == 0xff
      then bad_xml p
      else if not (p.uni_max == 0)
      then (do q ← utf8_next c p; go_on l q)
      else if not (bit_and c 0x80 == 0)
      then utf8_first c pos l p
      else in_context p.context
