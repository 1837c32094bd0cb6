-- ===== src/Iks/Create/Node.antt =====
-- `iks_new` to `iks_insert_cdata` of src/iks.c: new nodes, and new children of a node.
use iksemel.Base.{ℕ, ◌+◌, Bool, true, false, ◌==◌, if◌then◌else◌, Option, none, some, Bytes, strlen}
use iksemel.Iks.Heap.{
  Ptr, NodeType, iks_tag, iks_cdata, Body, tag, cdata, Node, Cmd, pure, ◌>>=◌, ◌>>◌, if_null, skip,
  load, put_node, modify, set_next, set_prev, set_parent, set_body, as_cdata, load_tag, set_tag,
  request, new_string, joined_string,
}

-- `memset (x, 0, len)` with `x->s` and `x->type`
abbrev pub blank : ℕ → NodeType → Body → Node
blank s type body = record {
  next = none;
  prev = none;
  parent = none;
  type = type;
  s = s;
  body = body;
}

abbrev pub no_tag : Option Bytes → Body
no_tag name =
    tag (record {
      children = none;
      last_child = none;
      attribs = none;
      last_attrib = none;
      name = name;
    })

unfoldable pub iks_new_within : Option Bytes → ℕ → Cmd Ptr
unfolding request put_node new_string set_tag
iks_new_within none s = do
  x ← request
  if_null x (pure none) λ a. do put_node a (blank s iks_tag (cdata none 0)); pure (some a)
iks_new_within (some name) s = do
  x ← request
  if_null x (pure none) λ a. do
    put_node a (blank s iks_tag (no_tag none))
    copy ← new_string name 0
    if_null copy (pure none)
        λ n. do set_tag (some a) (λ t. record t { name = some n }); pure (some a)

-- `iks_new`: a request for the stack, which is called by the number of that request
unfoldable pub iks_new : Option Bytes → Cmd Ptr
unfolding iks_new_within
iks_new name = do s ← request; if_null s (pure none) λ a. iks_new_within name a

-- `y` becomes the last child of `x`.
unfoldable pub link_child : Ptr → Ptr → Cmd (Unit {0})
unfolding load_tag set_tag modify
link_child x y = do
  t ← load_tag x
  if_null t.children (set_tag x (λ u. record u { children = y })) (λ c. skip)
  if_null t.last_child skip (λ l. set_next (some l) y >> set_prev y (some l))
  set_tag x (λ u. record u { last_child = y })

unfoldable pub iks_insert : Ptr → Option Bytes → Cmd Ptr
unfolding load iks_new_within modify link_child
iks_insert none name = pure none
iks_insert (some x) name = do
  n ← load (some x)
  y ← iks_new_within name n.s
  if_null y (pure none)
      λ a. do set_parent (some a) (some x); link_child (some x) (some a); pure (some a)

-- `len == 0` stands for the whole string.
abbrev pub length_of : Bytes → ℕ → ℕ
length_of src len = if len == 0 then strlen src else len

-- the text of `y` is extended
unfoldable pub extend_cdata : Ptr → Bytes → ℕ → Cmd Ptr
unfolding load joined_string modify
extend_cdata y src len = do
  n ← load y
  old ← as_cdata n.body
  joined ← joined_string old.0 old.1 src len
  set_body y (cdata joined (old.1 + len))
  pure y

-- a new node of text
unfoldable pub insert_text : Ptr → ℕ → Bytes → ℕ → Cmd Ptr
unfolding iks_insert modify new_string
insert_text x s src len = do
  y ← iks_insert x none
  if_null y (pure none) λ a. do
    modify (some a) (λ n. record n { type = iks_cdata })
    copy ← new_string src len
    set_body (some a) (cdata copy 0)
    if_null copy (pure none) λ text. do set_body (some a) (cdata (some text) len); pure (some a)

abbrev pub is_cdata : NodeType → Bool
is_cdata iks_cdata = true
is_cdata _ = false

abbrev pub is_tag : NodeType → Bool
is_tag iks_tag = true
is_tag _ = false

unfoldable pub iks_insert_cdata : Ptr → Option Bytes → ℕ → Cmd Ptr
unfolding load load_tag extend_cdata insert_text
iks_insert_cdata none src len = pure none
iks_insert_cdata (some x) none len = pure none
iks_insert_cdata (some x) (some src) len = do
  n ← load (some x)
  t ← load_tag (some x)
  if_null t.last_child (insert_text (some x) n.s src (length_of src len)) λ l. do
    last ← load (some l)
    if is_cdata last.type
        then extend_cdata (some l) src (length_of src len)
        else insert_text (some x) n.s src (length_of src len)

-- `a == b`, where `b` is not NULL
abbrev pub same_ptr : Ptr → ℕ → Bool
same_ptr none b = false
same_ptr (some a) b = a == b
