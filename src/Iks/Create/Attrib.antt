-- ===== src/Iks/Create/Attrib.antt =====
-- `iks_insert_attrib` of src/iks.c: an attribute is made, changed or taken out.
use iksemel.Base.{ℕ, Bool, if◌then◌else◌, Option, none, some, Bytes, eq_bytes}
use iksemel.Iks.Heap.{
  Ptr, iks_attribute, attrib, Node, Cmd, pure, crash, ◌>>=◌, ◌>>◌, if_null, skip, load, put_node,
  modify, set_next, set_prev, set_parent, set_body, load_tag, set_tag, load_attrib, as_attrib,
  request, new_string,
}
use iksemel.Iks.Seek.{seek, next_of}
use iksemel.Iks.Create.Node.{blank, same_ptr}

-- `strcmp (a, b) == 0`, which reads through both
abbrev pub same_name : Option Bytes → Bytes → Cmd Bool
same_name none b = crash
same_name (some a) b = pure (eq_bytes a b)

-- the test of the loop in `iks_insert_attrib`
abbrev pub attrib_named : Bytes → Node → Cmd Bool
attrib_named name n = do a ← as_attrib n.body; same_name a.0 name

-- the attribute of this name from `y` on, or NULL
unfoldable pub search_attrib : ℕ → Ptr → Bytes → Cmd Ptr
unfolding seek
search_attrib fuel y name = seek next_of (attrib_named name) fuel y

-- `y` becomes the last attribute of `x`.
unfoldable pub link_attrib : Ptr → Ptr → Cmd (Unit {0})
unfolding load_tag set_tag modify
link_attrib x y = do
  t ← load_tag x
  if_null t.attribs (set_tag x (λ u. record u { attribs = y })) (λ c. skip)
  if_null t.last_attrib skip (λ l. set_next (some l) y >> set_prev y (some l))
  set_tag x (λ u. record u { last_attrib = y })

-- a new attribute without a value
unfoldable pub new_attrib : ℕ → Bytes → ℕ → Cmd Ptr
unfolding request put_node new_string modify link_attrib
new_attrib x name s = do
  y ← request
  if_null y (pure none) λ a. do
    put_node a (blank s iks_attribute (attrib none none))
    copy ← new_string name 0
    set_body (some a) (attrib copy none)
    if_null copy (pure none)
        λ n. do set_parent (some a) (some x); link_attrib (some x) (some a); pure (some a)

-- the value of `y`
unfoldable pub set_value : Ptr → Bytes → Cmd Ptr
unfolding load_attrib new_string modify
set_value y value = do
  copy ← new_string value 0
  a ← load_attrib y
  set_body y (attrib a.0 copy)
  if_null copy (pure none) λ v. pure y

-- `y` leaves the attributes of `x`.
unfoldable pub unlink_attrib : ℕ → ℕ → Cmd (Unit {0})
unfolding load modify load_tag set_tag
unlink_attrib x y = do
  n ← load (some y)
  if_null n.next skip (λ q. set_prev (some q) n.prev)
  if_null n.prev skip (λ p. set_next (some p) n.next)
  t ← load_tag (some x)
  if same_ptr t.attribs y then set_tag (some x) (λ u. record u { attribs = n.next }) else skip
  if same_ptr t.last_attrib y
      then set_tag (some x) (λ u. record u { last_attrib = n.prev })
      else skip

unfoldable pub iks_insert_attrib : ℕ → Ptr → Bytes → Option Bytes → Cmd Ptr
unfolding load load_tag search_attrib new_attrib set_value unlink_attrib
iks_insert_attrib fuel none name value = pure none
iks_insert_attrib fuel (some x) name value = do
  n ← load (some x)
  t ← load_tag (some x)
  y ← search_attrib fuel t.attribs name
  if_null value (if_null y (pure none) λ a. do unlink_attrib x a; pure (some a)) λ v.
      if_null y (do z ← new_attrib x name n.s; if_null z (pure none) λ a. set_value (some a) v)
        λ a. set_value (some a) v
