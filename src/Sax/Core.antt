-- ===== src/Sax/Core.antt =====
-- `sax_core` of src/sax.c: the loop over the bytes of a buffer. `Chars` has the checks of a byte, and
-- `Contexts` the switch over the context.
mod Chars
mod Contexts
unfoldable pub use Chars.*
unfoldable pub use Contexts.*
use iksemel.Base.{
  ℕ, zero, suc, ◌+◌, ◌*◌, ◌%◌, ◌^◌, bit_and, Bool, true, false, not, ◌||◌, ◌==◌, ltb, leb,
  if◌then◌else◌, Option, none, some, [], ◌∷◌, ◌++◌, Bytes, codes, length, eq_bytes,
}
use iksemel.Sax.Types.{
  Context, c_cdata, c_tag_start, c_tag, c_tag_end, c_attribute, c_attribute_1, c_attribute_2,
  c_value, c_value_apos, c_value_quot, c_whitespace, c_entity, c_comment, c_comment_1, c_comment_2,
  c_comment_3, c_markup, c_markup_1, c_sect, c_sect_cdata, c_sect_cdata_1, c_sect_cdata_2,
  c_sect_cdata_3, c_sect_cdata_4, c_sect_cdata_c, c_sect_cdata_e, c_sect_cdata_e2, c_pi, TagType,
  iks_open, iks_close, iks_single, Env, Parser, Locals, Outcome, ok, err, fault, out_of_fuel, ◌>>=◌,
  iks_badxml, add64, add32,
}
use iksemel.Sax.Token.{
  stack_init, end_token, push_pending, set_att, atts_room, call_cdata, flush_cdata, call_tag,
}

-- `pos++; prs->nr_bytes++; if ('\n' == c) prs->nr_lines++;`
unfoldable pub count_byte : {U : Type 0} → ℕ → Parser U → Parser U
count_byte c p = record p {
  nr_bytes = add64 p.nr_bytes 1;
  nr_lines = if c == b'\n' then add64 p.nr_lines 1 else p.nr_lines;
}

module _ {U : Type 0} (env : Env U) (buf : Bytes) where
  -- `if (prs->cdataHook && (prs->context == C_CDATA || prs->context == C_SECT_CDATA_C) && …)`
  unfoldable pub flush_last : ℕ → Locals → Parser U → Context → Outcome U (Parser U)
  flush_last pos l q c_cdata = flush_cdata env buf pos l q
  flush_last pos l q c_sect_cdata_c = flush_cdata env buf pos l q
  flush_last pos l q _ = ok q

  -- behind the loop: the pending piece of a token, and the pending text
  unfoldable pub finish : ℕ → Locals → Parser U → Outcome U (Parser U)
  finish pos l p = do q ← push_pending env buf pos l.stack_old p; flush_last pos l q q.context

  -- `while (pos < len)`, on fuel; `rest` is what stands in `buf` from `pos` on. A byte that is
  -- looked at again keeps its place.
  unfoldable pub sax_loop : ℕ → Bytes → ℕ → Locals → Parser U → Outcome U (Parser U)
  sax_loop fuel [] pos l p = finish pos l p
  sax_loop zero (c ∷ rest) pos l p = out_of_fuel
  sax_loop (suc fuel) (c ∷ rest) pos l p = examine env buf c pos l p >>= λ r. elim r.re [
    | true ↦ sax_loop fuel (c ∷ rest) pos r.locals r.prs
    | false ↦ sax_loop fuel rest (pos + 1) r.locals (count_byte c r.prs)
  ]

-- `sax_core` on the bytes `buf`; no byte is looked at more than four times.
unfoldable pub sax_core : {U : Type 0} → Env U → Parser U → Bytes → Outcome U (Parser U)
sax_core env p buf =
    sax_loop env buf (4 * length buf) buf 0 (record { old = 0; stack_old = none }) p
