-- ===== src/Tests/Sax.antt =====
-- The parser on small documents, with hooks that record what they are given.
use iksemel.Base.{
  ◌≡◌, refl, true, Option, none, some, List, [], ◌∷◌, ◌++◌, Bytes, codes, eq_bytes, c_string,
}
use iksemel.Sax.Types.{TagType, iks_open, iks_close, iks_single, Env, Parser, sax_new, Outcome, ok}
use iksemel.Sax.Token.{
  stack_init, expanded_size, stack_expand, stack_write, stack_push, stack_push_end, push_pending,
  end_token, set_att, grow_atts, atts_room, read_atts, call_cdata, flush_cdata, tag_name_of,
  tag_atts_of, call_tag,
}
use iksemel.Sax.Parse.{iks_parse, parser_reset}
use iksemel.Sax.Safe.Ensures.{Ensures}
use iksemel.Sax.Safe.Loop.{StopsIn, Reads, sax_core-Reads}
use iksemel.Sax.Valid.{IsValid}
use iksemel.Sax.Safe.Session.{
  Reachable, made, parsed, given, iks_parse-Reachable, Reachable-IsValid,
}
use iksemel.Sax.Core.{
  is_whitespace, utf8_next, utf8_lead, utf8_first, entity_char, sax_core, sax_loop, examine,
  count_byte, finish, flush_last, in_cdata, in_tag_start, end_name, in_tag, in_tag_end,
  in_attribute, in_attribute_1, in_attribute_2, open_quote, in_value, after_value, in_quoted,
  in_whitespace, in_entity, expect, in_markup, in_markup_1, in_sect_cdata_c, in_sect_cdata_e,
  in_sect_cdata_e2, in_context,
}

-- all that a run computes with
running : Unit {0}
unfolding is_whitespace utf8_next utf8_lead utf8_first entity_char sax_core sax_loop examine
    count_byte finish flush_last in_cdata in_tag_start end_name in_tag in_tag_end in_attribute
    in_attribute_1 in_attribute_2 open_quote in_value after_value in_quoted in_whitespace in_entity
    expect in_markup in_markup_1 in_sect_cdata_c in_sect_cdata_e in_sect_cdata_e2 in_context
    iks_parse parser_reset stack_init expanded_size stack_expand stack_write stack_push
    stack_push_end push_pending end_token set_att grow_atts atts_room read_atts call_cdata
    flush_cdata tag_name_of tag_atts_of call_tag eq_bytes c_string
running = tt

data Event : Type 0 where
  text : Bytes → Event
  tag : TagType → Bytes → List Bytes → Event

abbrev args : Option (List Bytes) → List Bytes
args none = []
args (some l) = l

abbrev recorder : Env (List Event)
recorder = record {
  malloc = λ n. true;
  tag_hook = some (λ u n a t. (0, u ++ tag t n (args a) ∷ []));
  cdata_hook = some (λ u b. (0, u ++ text b ∷ []));
  delete_hook = none;
}

abbrev events : Outcome (List Event) (Parser (List Event)) → Option (List Event)
events (ok p) = some p.user_data
events _ = none

small_document :
    events (sax_core recorder (sax_new []) (codes "<a b='1' c = \"2&\">x&lt;y<d/></a>"))
    ≡ some (
        tag iks_open (codes "a") (codes "b" ∷ codes "1" ∷ codes "c" ∷ codes "2&" ∷ [])
        ∷ text (codes "x")
        ∷ text (codes "<")
        ∷ text (codes "y")
        ∷ tag iks_single (codes "d") []
        ∷ tag iks_close (codes "a") []
        ∷ [])
unfolding running
small_document = refl

-- a parser in the middle of an attribute value
abbrev begun : Outcome (List Event) (Parser (List Event)) → Parser (List Event)
begun (ok p) = p
begun _ = sax_new []

abbrev halfway : Parser (List Event)
unfolding running
halfway = begun (iks_parse recorder (sax_new []) (some (codes "<a b='1&am")) 10)

halfway-Reachable : Reachable recorder halfway
unfolding running
halfway-Reachable = parsed (sax_new []) halfway (some (codes "<a b='1&am")) 10 (made []) refl

iks_parse-Reachable_example :
    Ensures
      (StopsIn halfway (given (some (codes "p;'/>")) 5))
      (Reads halfway (given (some (codes "p;'/>")) 5))
      (iks_parse recorder halfway (some (codes "p;'/>")) 5)
iks_parse-Reachable_example =
    iks_parse-Reachable recorder halfway (some (codes "p;'/>")) 5 halfway-Reachable

halfway-IsValid : IsValid halfway
halfway-IsValid = Reachable-IsValid recorder halfway halfway-Reachable

sax_core-Reads_example :
    Ensures
      (StopsIn halfway (codes "p;"))
      (Reads halfway (codes "p;"))
      (sax_core recorder halfway (codes "p;"))
sax_core-Reads_example = sax_core-Reads recorder halfway (codes "p;") halfway-IsValid
