-- ===== src/Dom.antt =====
-- src/dom.c: the hooks with which the parser of src/sax.c builds a document tree. A hook's state
-- is the run of commands so far, and a run that has failed stays as it is.
pub mod Hooks
pub mod File
use iksemel.Base.{
  ℕ, ◌/◌, Bool, ◌==◌, ltb, true, false, if◌then◌else◌, Option, none, some, List, [], ◌∷◌, Bytes,
  length, strlen,
}
use iksemel.Utility.Strings.{Compared, less, same, greater, iks_strcmp}
use iksemel.Sax.Types.{
  TagType, iks_open, iks_close, iks_single, iks_ok, iks_nomem, iks_badxml, iks_hook, Env, Parser,
  Outcome,
}
use iksemel.Sax.Parse.{sax_extend, iks_parse, parser_delete, iks_user_data}
use iksemel.Sax.Types
use iksemel.Iks.Heap.{
  Ptr, Run, ok, fault, out_of_fuel, Cmd, pure, crash, and_then, ◌>>=◌, ◌>>◌, if_null, skip, request,
}
use iksemel.Iks.Create.{iks_new_within, iks_insert, iks_insert_attrib, iks_insert_cdata, iks_delete}
use iksemel.Iks.Move.{iks_parent}
use iksemel.Iks.Info.{iks_name}

-- `struct dom_data` with the variable that `iksptr` points to
pub record DomData : Type 0 where
  pub tree : Ptr
  pub current : Ptr
  pub chunk_size : ℕ

abbrev pub default_chunk_size : ℕ
default_chunk_size = 2048

-- `iks_insert_attrib (x, atts[i], atts[i+1])` for each pair; past a name without a value, the
-- loop would read behind the array.
unfoldable pub insert_atts : ℕ → Ptr → List Bytes → Cmd (Unit {0})
unfolding iks_insert_attrib
insert_atts fuel x [] = skip
insert_atts fuel x (name ∷ []) = crash
insert_atts fuel x (name ∷ v ∷ atts) = do
  iks_insert_attrib fuel x name (some v)
  insert_atts fuel x atts

-- the first `if` of `tagHook`
unfoldable pub open_element : ℕ → DomData → Bytes → Option (List Bytes) → Cmd DomData
unfolding request iks_insert iks_new_within insert_atts
open_element fuel d name atts = do
  x ←
      if_null d.current (do s ← request; if_null s crash λ a. iks_new_within (some name) a)
        λ c. iks_insert (some c) (some name)
  if_null atts skip λ l. insert_atts fuel x l
  pure (record d { current = x })

abbrev pub is_same : Compared → Bool
is_same same = true
is_same less = false
is_same greater = false

-- back in the parent `x`, or the tree is complete
abbrev pub closed : DomData → Ptr → DomData
closed d none = record d { tree = d.current; current = none }
closed d (some x) = record d { current = some x }

-- the second `if` of `tagHook`
unfoldable pub close_element : DomData → Bytes → Cmd (ℕ × DomData)
unfolding iks_parent iks_name iks_strcmp
close_element d name = do
  x ← iks_parent d.current
  own ← iks_name d.current
  if is_same (iks_strcmp own (some name)) then pure (iks_ok, closed d x) else pure (iks_badxml, d)

unfoldable pub tag_hook : ℕ → DomData → Bytes → Option (List Bytes) → TagType → Cmd (ℕ × DomData)
unfolding open_element close_element
tag_hook fuel d name atts iks_open = do e ← open_element fuel d name atts; pure (iks_ok, e)
tag_hook fuel d name atts iks_close = close_element d name
tag_hook fuel d name atts iks_single = do e ← open_element fuel d name atts; close_element e name

unfoldable pub cdata_hook : DomData → Bytes → Cmd (ℕ × DomData)
unfolding iks_insert_cdata
cdata_hook d text = do
  if_null d.current skip λ c. do iks_insert_cdata (some c) (some text) (length text); skip
  pure (iks_ok, d)

unfoldable pub delete_hook : DomData → Cmd DomData
unfolding iks_delete
delete_hook d = do
  if_null d.current skip λ c. iks_delete (some c)
  pure (record d { current = none })

-- what the parser gets from a hook: an error code and the run so far
abbrev pub coded : {A : Type 0} → Run (ℕ × A) → ℕ × Run A
coded (ok r h) = (r.0, ok r.1 h)
coded fault = (iks_hook, fault)
coded out_of_fuel = (iks_hook, out_of_fuel)

unfoldable pub dom_env : ℕ → (ℕ → Bool) → Env (Run DomData)
unfolding tag_hook cdata_hook delete_hook
dom_env fuel malloc = record {
  malloc = malloc;
  tag_hook = some (λ u name atts type. coded (and_then u λ d. tag_hook fuel d name atts type));
  cdata_hook = some (λ u text. coded (and_then u λ d. cdata_hook d text));
  delete_hook = some (λ u. and_then u delete_hook);
}

abbrev pub no_data : DomData
no_data = record { tree = none; current = none; chunk_size = default_chunk_size }

-- `iks_dom_new`, where `size` is `sizeof (iksparser)`
unfoldable pub iks_dom_new : (ℕ → Bool) → ℕ → Cmd (Option (Parser (Run DomData)))
unfolding request sax_extend
iks_dom_new malloc size = do
  s ← request
  if_null s (pure none) λ _. do
    data_area ← request
    if_null data_area crash λ _. λ h. ok (sax_extend malloc size (ok no_data h)) h

unfoldable pub iks_set_size_hint : Parser (Run DomData) → ℕ → Parser (Run DomData)
unfolding iks_user_data
iks_set_size_hint p approx_size =
    let cs = approx_size / 10 in
    record p {
      user_data = and_then (iks_user_data p) λ d.
          pure (record d {
            chunk_size = if ltb cs default_chunk_size then default_chunk_size else cs;
          });
    }

-- the end of `iks_tree`: the error code and the tree, once the parser is deleted
unfoldable pub tree_result :
    Env (Run DomData) → Outcome (Run DomData) (Parser (Run DomData)) → Run (ℕ × Ptr)
unfolding parser_delete
tree_result env (Types.ok p) = and_then (parser_delete env p) λ d. pure (iks_ok, d.tree)
tree_result env (Types.err e p) = and_then (parser_delete env p) λ d. pure (e, d.tree)
tree_result env Types.fault = fault
tree_result env Types.out_of_fuel = out_of_fuel

unfoldable pub iks_tree : ℕ → (ℕ → Bool) → ℕ → Bytes → ℕ → Cmd (ℕ × Ptr)
unfolding iks_dom_new iks_parse dom_env tree_result
iks_tree fuel malloc size xml len = do
  prs ← iks_dom_new malloc size
  if_null prs (pure (iks_nomem, none)) λ p. λ h.
      tree_result (dom_env fuel malloc)
        (iks_parse (dom_env fuel malloc) p (some xml) (if len == 0 then strlen xml else len))
