-- ===== src/Iks/Info.antt =====
-- What a node holds: `iks_stack` to `iks_has_attribs` of src/iks.c.
use iksemel.Base.{ℕ, Bool, true, false, if◌then◌else◌, Option, none, some, Bytes}
use iksemel.Iks.Heap.{
  Body, tag, cdata, attrib, crash, Ptr, NodeType, iks_none, Cmd, pure, ◌>>=◌, load, as_tag,
  as_attrib, as_cdata,
}
use iksemel.Iks.Create.{is_tag, is_cdata}

unfoldable pub iks_stack : Ptr → Cmd (Option ℕ)
unfolding load
iks_stack none = pure none
iks_stack (some x) = do n ← load (some x); pure (some n.s)

unfoldable pub iks_type : Ptr → Cmd NodeType
unfolding load
iks_type none = pure iks_none
iks_type (some x) = do n ← load (some x); pure n.type

-- `IKS_ATTRIB_NAME`, which in a node of text is the text: both follow IKS_COMMON
abbrev pub first_string : Body → Cmd (Option Bytes)
first_string (tag t) = crash
first_string (cdata c len) = pure c
first_string (attrib name value) = pure name

unfoldable pub iks_name : Ptr → Cmd (Option Bytes)
unfolding load
iks_name none = pure none
iks_name (some x) = do
  n ← load (some x)
  if is_tag n.type then (do t ← as_tag n.body; pure t.name) else first_string n.body

-- the function `iks_cdata`
unfoldable pub text_of : Ptr → Cmd (Option Bytes)
unfolding load
text_of none = pure none
text_of (some x) = do
  n ← load (some x)
  if is_cdata n.type
      then (do d ← as_cdata n.body; pure d.0)
      else (do a ← as_attrib n.body; pure a.1)

unfoldable pub iks_cdata_size : Ptr → Cmd ℕ
unfolding load
iks_cdata_size none = pure 0
iks_cdata_size (some x) = do n ← load (some x); d ← as_cdata n.body; pure d.1

abbrev is_null : Ptr → Bool
is_null none = true
is_null (some a) = false

unfoldable pub iks_has_children : Ptr → Cmd ℕ
unfolding load
iks_has_children none = pure 0
iks_has_children (some x) = do
  n ← load (some x)
  if is_tag n.type
      then (do t ← as_tag n.body; if is_null t.children then pure 0 else pure 1)
      else pure 0

unfoldable pub iks_has_attribs : Ptr → Cmd ℕ
unfolding load
iks_has_attribs none = pure 0
iks_has_attribs (some x) = do
  n ← load (some x)
  if is_tag n.type
      then (do t ← as_tag n.body; if is_null t.attribs then pure 0 else pure 1)
      else pure 0
