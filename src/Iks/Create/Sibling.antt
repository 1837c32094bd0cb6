-- ===== src/Iks/Create/Sibling.antt =====
-- `iks_insert_node` to `iks_prepend_cdata` of src/iks.c: nodes next to another one.
use iksemel.Base.{ℕ, Option, none, some, Bytes}
use iksemel.Iks.Heap.{
  Ptr, iks_cdata, cdata, Cmd, pure, ◌>>=◌, ◌>>◌, if_null, load, modify, set_next, set_prev,
  set_parent, set_body, set_tag, new_string,
}
use iksemel.Iks.Create.Node.{iks_new_within, link_child, length_of}

unfoldable pub iks_insert_node : Ptr → Ptr → Cmd Ptr
unfolding modify link_child
iks_insert_node x y = do set_parent y x; link_child x y; pure y

-- `y` goes behind `x`
unfoldable pub link_behind : ℕ → ℕ → Cmd (Unit {0})
unfolding load modify set_tag
link_behind x y = do
  n ← load (some x)
  if_null n.next (set_tag n.parent (λ u. record u { last_child = some y }))
      (λ q. set_prev (some q) (some y))
  set_next (some y) n.next
  set_next (some x) (some y)
  set_parent (some y) n.parent
  set_prev (some y) (some x)

-- `y` goes in front of `x`
unfoldable pub link_before : ℕ → ℕ → Cmd (Unit {0})
unfolding load modify set_tag
link_before x y = do
  n ← load (some x)
  if_null n.prev (set_tag n.parent (λ u. record u { children = some y }))
      (λ p. set_next (some p) (some y))
  set_prev (some y) n.prev
  set_prev (some x) (some y)
  set_parent (some y) n.parent
  set_next (some y) (some x)

unfoldable pub iks_append : Ptr → Option Bytes → Cmd Ptr
unfolding load iks_new_within link_behind
iks_append none name = pure none
iks_append (some x) name = do
  n ← load (some x)
  y ← iks_new_within name n.s
  if_null y (pure none) λ a. do link_behind x a; pure (some a)

unfoldable pub iks_prepend : Ptr → Option Bytes → Cmd Ptr
unfolding load iks_new_within link_before
iks_prepend none name = pure none
iks_prepend (some x) name = do
  n ← load (some x)
  y ← iks_new_within name n.s
  if_null y (pure none) λ a. do link_before x a; pure (some a)

-- a node of text that is linked to nothing
unfoldable pub new_text : ℕ → Bytes → ℕ → Cmd Ptr
unfolding iks_new_within modify new_string
new_text s src len = do
  y ← iks_new_within none s
  if_null y (pure none) λ a. do
    modify (some a) (λ n. record n { type = iks_cdata })
    copy ← new_string src len
    set_body (some a) (cdata copy 0)
    if_null copy (pure none) λ text. do set_body (some a) (cdata (some text) len); pure (some a)

unfoldable pub iks_append_cdata : Ptr → Option Bytes → ℕ → Cmd Ptr
unfolding load new_text link_behind
iks_append_cdata none src len = pure none
iks_append_cdata (some x) none len = pure none
iks_append_cdata (some x) (some src) len = do
  n ← load (some x)
  y ← new_text n.s src (length_of src len)
  if_null y (pure none) λ a. do link_behind x a; pure (some a)

unfoldable pub iks_prepend_cdata : Ptr → Option Bytes → ℕ → Cmd Ptr
unfolding load new_text link_before
iks_prepend_cdata none src len = pure none
iks_prepend_cdata (some x) none len = pure none
iks_prepend_cdata (some x) (some src) len = do
  n ← load (some x)
  y ← new_text n.s src (length_of src len)
  if_null y (pure none) λ a. do link_before x a; pure (some a)
