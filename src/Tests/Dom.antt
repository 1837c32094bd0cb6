-- ===== src/Tests/Dom.antt =====
-- Trees that are built, searched, copied, parsed and written.
use iksemel.Base.{
  suc, ◌≡◌, refl, ℕ, length, arith, true, false, Option, none, some, List, [], ◌∷◌, ◌++◌, Bytes,
  codes, eq_bytes, strlen, c_string,
}
use iksemel.Iks.Heap.{
  Node, Ptr, Heap, Run, ok, Cmd, pure, if_null, ◌>>=◌, ◌>>◌, load, put_node, modify, load_tag,
  set_tag, load_attrib, request, new_string, joined_string, write,
}
use iksemel.Iks.Seek.{seek}
use iksemel.Iks.Create.{
  iks_new_within, iks_new, link_child, iks_insert, extend_cdata, insert_text, iks_insert_cdata,
  search_attrib, link_attrib, new_attrib, set_value, unlink_attrib, iks_insert_attrib,
  iks_insert_node, link_behind, link_before, iks_append, iks_prepend, new_text, iks_append_cdata,
  iks_prepend_cdata, iks_hide, free_stack, iks_delete,
}
use iksemel.Iks.Move.{iks_next, iks_next_tag, iks_root, climb, iks_parent}
use iksemel.Iks.Find.{
  iks_find, iks_find_cdata, iks_find_attrib, iks_find_with_attrib, has_value, attrib_value,
}
use iksemel.Iks.Info.{iks_name}
use iksemel.Iks.Tree.{Att, Forest, empty, element, text, print}
use iksemel.Iks.Tree.Element.{Element}
use iksemel.Iks.Tree.Frame.{append}
use iksemel.Iks.Write.Inserted.{iks_string-iks_insert}
use iksemel.Iks.Create.Insert.{Inserted, iks_insert-Element}
use iksemel.Iks.Create.Refused.{Refused, iks_insert-Refused}
use iksemel.Iks.Move.Root.{iks_root-topmost}
use iksemel.Dom.Hooks.{in_element, tag_hook-close}
use iksemel.Sax.Types.{iks_close, iks_badxml}
use iksemel.Iks.Create.Extend.{Extended, iks_insert_cdata-Extended}
use iksemel.Iks.Tree.LastText.{with_text}
use iksemel.Iks.Find.First.{iks_find-first_named, iks_find_attrib-value_of, iks_find_cdata-text_in}
use iksemel.Iks.Write.Fold.{spend, width}
use iksemel.Iks.Write.Print.{fuel_for, iks_string-print}
use iksemel.Iks.Write.Fits.{answered, written, iks_string-written}
use iksemel.Iks.Write.Escaped.{escape_lem}
use iksemel.Utility.Escape.{escape_bytes}
use iksemel.Iks.Write.{walk_attribs, to_next, to_parent, behind, visit, walk, iks_string}
use iksemel.Iks.Write.Escape.{
  byte_size, escape_size, my_strcat, special, write_plain, escape_loop, escape,
}
use iksemel.Iks.Copy.{
  copy_attribs, up, after_copy, copy_tag, copy_node, copy_loop, iks_copy_within, iks_copy,
}
use iksemel.Utility.Strings.{iks_strcmp, strcmp}
use iksemel.Dom.{
  insert_atts, open_element, close_element, tag_hook, cdata_hook, delete_hook, dom_env, iks_dom_new,
  tree_result, iks_tree,
}
use iksemel.Sax.Token.{
  stack_init, expanded_size, stack_expand, stack_write, stack_push, stack_push_end, push_pending,
  end_token, set_att, grow_atts, atts_room, read_atts, call_cdata, flush_cdata, tag_name_of,
  tag_atts_of, call_tag,
}
use iksemel.Sax.Parse.{iks_parse, parser_delete, sax_extend}
use iksemel.Sax.Core.{
  is_whitespace, utf8_next, utf8_lead, utf8_first, entity_char, sax_core, sax_loop, examine,
  count_byte, finish, flush_last, in_cdata, in_tag_start, end_name, in_tag, in_tag_end,
  in_attribute, in_attribute_1, in_attribute_2, open_quote, in_value, after_value, in_quoted,
  in_whitespace, in_entity, expect, in_markup, in_markup_1, in_sect_cdata_c, in_sect_cdata_e,
  in_sect_cdata_e2, in_context,
}

-- all that a run computes with
unfoldable pub running : Unit {0}
unfolding load put_node modify load_tag set_tag load_attrib request new_string joined_string write
    seek iks_new_within iks_new link_child iks_insert extend_cdata insert_text iks_insert_cdata
    search_attrib link_attrib new_attrib set_value unlink_attrib iks_insert_attrib iks_insert_node
    link_behind link_before iks_append iks_prepend new_text iks_append_cdata iks_prepend_cdata
    iks_hide free_stack iks_delete iks_next iks_next_tag iks_root climb iks_parent iks_find
    iks_find_cdata iks_find_attrib iks_find_with_attrib has_value attrib_value iks_name walk_attribs
    to_next to_parent behind visit walk iks_string byte_size escape_size my_strcat special
    write_plain escape_loop escape copy_attribs up after_copy copy_tag copy_node copy_loop
    iks_copy_within iks_copy iks_strcmp strcmp insert_atts open_element close_element tag_hook
    cdata_hook delete_hook dom_env iks_dom_new tree_result iks_tree eq_bytes strlen spend width
running = tt

unfoldable pub parsing : Unit {0}
unfolding running is_whitespace utf8_next utf8_lead utf8_first entity_char sax_core sax_loop examine
    count_byte finish flush_last in_cdata in_tag_start end_name in_tag in_tag_end in_attribute
    in_attribute_1 in_attribute_2 open_quote in_value after_value in_quoted in_whitespace in_entity
    expect in_markup in_markup_1 in_sect_cdata_c in_sect_cdata_e in_sect_cdata_e2 in_context
    iks_parse parser_delete sax_extend stack_init expanded_size stack_expand stack_write stack_push
    stack_push_end push_pending end_token set_att grow_atts atts_room read_atts call_cdata
    flush_cdata tag_name_of tag_atts_of call_tag c_string
parsing = tt

abbrev pub empty_heap : Heap
empty_heap = record { fresh = 0; grants = λ n. true; node = λ a. none }

abbrev pub result : {A : Type 0} → Run A → Option A
result (ok a h) = some a
result _ = none

-- `<a b='1'>x&amp;y<c/></a>`, with text that comes in two pieces
abbrev build : Cmd Ptr
build = do
  a ← iks_new (some (codes "a"))
  iks_insert_attrib 9 a (codes "b") (some (codes "1"))
  iks_insert_cdata a (some (codes "x&")) 0
  iks_insert_cdata a (some (codes "y")) 1
  iks_insert a (some (codes "c"))
  pure a

build-text :
    result ((do a ← build; iks_string 20 none a) empty_heap)
    ≡ some (some (codes "<a b='1'>x&amp;y<c/></a>"))
unfolding running
build-text = refl

build-copy :
    result ((do a ← build; b ← iks_copy 20 a; iks_string 20 none b) empty_heap)
    ≡ some (some (codes "<a b='1'>x&amp;y<c/></a>"))
unfolding running
build-copy = refl

-- the heap that a run leaves
abbrev pub left : {A : Type 0} → Run A → Heap
left (ok a h) = h
left _ = empty_heap

abbrev pub built : Heap
built = left (build empty_heap)

abbrev pub built_kids : Forest
built_kids = text 6 (codes "x&y") (element 9 (codes "c") [] empty empty)

abbrev pub built_atts : List Att
built_atts = record { at = 3; name = codes "b"; value = codes "1" } ∷ []

iks_string-print_example :
    iks_string 20 none (some 1) built
    ≡ (do
      r ← request
      if_null r
          (pure none)
          λ _. pure (some (print (element 1 (codes "a") built_atts built_kids empty))))
        built
unfolding running fuel_for
iks_string-print_example =
    iks_string-print 20 none built 0 1 none none none (codes "a") built_atts built_kids
      (omega arith) refl refl (refl, refl, refl, tt) (refl, (refl, refl, tt, tt, tt))

built-Element : Element built.node built.fresh 0 1 none none none (codes "a") built_atts built_kids
unfolding running
built-Element = record {
  here = refl;
  named = refl;
  own = (refl, refl, refl, tt);
  below = (refl, (refl, refl, tt, tt, tt));
  under = omega arith;
  clear = ((ground arith, ground arith, omega arith), tt);
  ends =
      ((ground arith, ground arith, omega arith), ((refl, ground arith, omega arith), tt, tt, tt));
}

iks_insert-Element_example :
    Inserted built 0 1 none none none (codes "a") built_atts built_kids (codes "d")
unfolding running
iks_insert-Element_example =
    iks_insert-Element built 0 1 none none none (codes "a") built_atts (codes "d") refl refl refl
      built_kids built-Element

abbrev full_heap : Heap
full_heap = record built { grants = λ n. false }

iks_insert-Refused_example : Refused full_heap 1 (codes "d")
iks_insert-Refused_example = iks_insert-Refused full_heap 1 _ (codes "d") built-Element.here refl

pub with_d : Inserted built 0 1 none none none (codes "a") built_atts built_kids (codes "d")
unfolding running
with_d =
    iks_insert-Element built 0 1 none none none (codes "a") built_atts (codes "d") refl refl refl
      built_kids built-Element

abbrev kids_with_d : Forest
kids_with_d = append built_kids (element built.fresh (codes "d") [] empty empty)

iks_string-iks_insert_example :
    (nodes : ℕ → Option Node) × ((iks_insert (some 1) (some (codes "d"))
          >> iks_string 30 none (some 1))
        built
      ≡ answered
          (print (element 1 (codes "a") built_atts kids_with_d empty))
          (record built { fresh = suc (suc built.fresh); node = nodes }))
unfolding running fuel_for
iks_string-iks_insert_example =
    iks_string-iks_insert 30 none built 0 1 none none none (codes "a") built_atts built_kids
      (codes "d") built-Element refl refl refl (omega arith)

iks_find-first_named_example : iks_find 5 (some 1) (codes "c") built ≡ ok (some 9) built
unfolding running
iks_find-first_named_example =
    iks_find-first_named built 0 (codes "c") 5 built.fresh 1 none none none (codes "a") built_atts
      built_kids (omega arith) built-Element

iks_root-topmost_example : iks_root 5 (some 9) built ≡ ok (some 1) built
unfolding running
iks_root-topmost_example =
    iks_root-topmost built 5 9 (1 ∷ []) (omega arith) (_, refl, refl, (_, refl, refl))

iks_find_cdata-text_in_example : iks_find_cdata 5 (some 1) (codes "c") built ≡ ok none built
unfolding running
iks_find_cdata-text_in_example =
    iks_find_cdata-text_in built 0 (codes "c") 5 built.fresh 1 none none none (codes "a") built_atts
      built_kids (omega arith) built-Element

iks_find_attrib-value_of_example :
    iks_find_attrib 5 (some 1) (codes "b") built ≡ ok (some (codes "1")) built
unfolding running
iks_find_attrib-value_of_example =
    iks_find_attrib-value_of built 0 (codes "b") 5 built.fresh 1 none none none (codes "a")
      built_atts built_kids (omega arith) built-Element

iks_string-written_example : iks_string 20 none (some 1) built ≡ written 20 1 built
unfolding running
iks_string-written_example = iks_string-written 20 none 1 _ built refl refl

escape_lem_example :
    (escape (codes "<") (codes "a&b") ≡ codes "<" ++ escape_bytes (codes "a&b"))
    × (escape_size 0 (codes "a&b") ≡ length (escape_bytes (codes "a&b")))
escape_lem_example = escape_lem (codes "<") (codes "a&b")

build-hide :
    result (
      (do
        a ← build
        c ← iks_find 9 a (codes "c")
        iks_append c (some (codes "d"))
        iks_hide c
        iks_insert_attrib 9 a (codes "b") none
        iks_string 20 none a)
        empty_heap)
    ≡ some (some (codes "<a>x&amp;y<d/></a>"))
unfolding running
build-hide = refl

abbrev parse_text : Bytes → Option (ℕ × Option Bytes)
parse_text xml = result (
    (do r ← iks_tree 50 (λ n. true) 200 xml 0; t ← iks_string 50 none r.1; pure (r.0, t))
      empty_heap)

parse-text :
    parse_text (codes "<a b=\"1\"> <c/>&lt;<d e='2'>f</d></a>" ++ 0 ∷ [])
    ≡ some (0, some (codes "<a b='1'> <c/>&lt;<d e='2'>f</d></a>"))
unfolding parsing running
parse-text = refl

parse-mismatch : parse_text (codes "<a><b></a></b>" ++ 0 ∷ []) ≡ some (2, none)
unfolding parsing running
parse-mismatch = refl

tag_hook-close_example :
    tag_hook 9 (in_element none 2048 1) (codes "b") none iks_close built
    ≡ ok (iks_badxml, in_element none 2048 1) built
unfolding running
tag_hook-close_example =
    tag_hook-close none 2048 9 built 0 1 none none none (codes "a") built_atts built_kids
      (codes "b") none refl

abbrev text_heap : Heap
text_heap =
    record (left
      ((do a ← iks_new (some (codes "a")); iks_insert_cdata a (some (codes "x")) 0) empty_heap)) {
        grants = λ n. true;
      }

text_heap-Element :
    Element text_heap.node text_heap.fresh 0 1 none none none
      (codes "a")
      []
      (with_text empty 3 (codes "x"))
unfolding running
text_heap-Element = record {
  here = refl;
  named = refl;
  own = tt;
  below = (refl, tt);
  under = omega arith;
  clear = tt;
  ends = ((refl, ground arith, omega arith), tt);
}

iks_insert_cdata-Extended_example :
    Extended text_heap 0 1 3 none none none
      (codes "a")
      []
      empty
      (codes "x")
      text_heap-Element
      (codes "yz")
      (iks_insert_cdata (some 1) (some (codes "yz" ++ codes "!")) 2 text_heap)
iks_insert_cdata-Extended_example =
    iks_insert_cdata-Extended text_heap 0 1 3 none none none (codes "a") [] empty (codes "x")
      text_heap-Element (codes "yz") (codes "!") (omega arith)
