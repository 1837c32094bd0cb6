-- ===== src/Iks/Find.antt =====
-- The searches among the children and the attributes of a node: `iks_find` to
-- `iks_find_with_attrib` of src/iks.c. Loops over links take fuel.
pub mod First
use iksemel.Base.{ℕ, Bool, true, false, if◌then◌else◌, Option, none, some, Bytes, eq_bytes}
use iksemel.Utility.Strings.{less, same, greater, iks_strcmp}
use iksemel.Iks.Heap.{
  Ptr, Node, Cmd, pure, ◌>>=◌, load, load_tag, load_attrib, as_tag, as_attrib, as_cdata, if_null,
}
use iksemel.Iks.Seek.{seek, next_of}
use iksemel.Iks.Create.{is_tag, is_cdata, same_name}

-- a tag of this name, where a tag without a name is passed over
abbrev pub tag_of_name : Bytes → Node → Cmd Bool
tag_of_name name n =
    if is_tag n.type
    then (do t ← as_tag n.body; if_null t.name (pure false) λ own. pure (eq_bytes own name))
    else pure false

unfoldable pub iks_find : ℕ → Ptr → Bytes → Cmd Ptr
unfolding load_tag seek
iks_find fuel none name = pure none
iks_find fuel (some x) name = do
  t ← load_tag (some x)
  seek next_of (tag_of_name name) fuel t.children

-- the text with which the children of `y` begin
unfoldable pub first_cdata : Ptr → Cmd (Option Bytes)
unfolding load load_tag
first_cdata none = pure none
first_cdata (some y) = do
  t ← load_tag (some y)
  if_null t.children (pure none) λ c. do
    n ← load (some c)
    if is_cdata n.type then (do d ← as_cdata n.body; pure d.0) else pure none

unfoldable pub iks_find_cdata : ℕ → Ptr → Bytes → Cmd (Option Bytes)
unfolding iks_find first_cdata
iks_find_cdata fuel x name = do y ← iks_find fuel x name; first_cdata y

-- an attribute of this name, where one without a name is passed over
abbrev pub attrib_of_name : Bytes → Node → Cmd Bool
attrib_of_name name n = do
  a ← as_attrib n.body
  if_null a.0 (pure false) λ own. pure (eq_bytes own name)

-- the loop of `iks_find_attrib` from the attribute `z` on
unfoldable pub attrib_value : ℕ → Ptr → Bytes → Cmd (Option Bytes)
unfolding load_attrib seek
attrib_value fuel z name = do
  y ← seek next_of (attrib_of_name name) fuel z
  if_null y (pure none) λ a. do v ← load_attrib (some a); pure v.1

unfoldable pub iks_find_attrib : ℕ → Ptr → Bytes → Cmd (Option Bytes)
unfolding load_tag attrib_value
iks_find_attrib fuel none name = pure none
iks_find_attrib fuel (some x) name = do t ← load_tag (some x); attrib_value fuel t.attribs name

-- the test on the value of an attribute, on a node that is at hand
unfoldable pub has_value : ℕ → Bytes → Option Bytes → Node → Cmd Bool
unfolding attrib_value iks_strcmp
has_value fuel attrname value n = do
  t ← as_tag n.body
  v ← attrib_value fuel t.attribs attrname
  elim (iks_strcmp v value) [ same ↦ pure true | less ↦ pure false | greater ↦ pure false ]

-- the tests of the two loops of `iks_find_with_attrib`
abbrev pub matches : ℕ → Option Bytes → Bytes → Option Bytes → Node → Cmd Bool
matches fuel none attrname value n =
    if is_tag n.type then has_value fuel attrname value n else pure false
matches fuel (some tagname) attrname value n =
    if is_tag n.type
    then (do
      t ← as_tag n.body
      named ← same_name t.name tagname
      if named then has_value fuel attrname value n else pure false)
    else pure false

unfoldable pub iks_find_with_attrib : ℕ → Ptr → Option Bytes → Bytes → Option Bytes → Cmd Ptr
unfolding load_tag seek has_value
iks_find_with_attrib fuel none tagname attrname value = pure none
iks_find_with_attrib fuel (some x) tagname attrname value = do
  t ← load_tag (some x)
  seek next_of (matches fuel tagname attrname value) fuel t.children
