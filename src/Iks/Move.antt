-- ===== src/Iks/Move.antt =====
-- From node to node: `iks_next` to `iks_attrib` of src/iks.c. Loops over links take fuel.
pub mod Root
use iksemel.Base.{ℕ, zero, suc, none, some}
use iksemel.Iks.Heap.{
  Ptr, Cmd, pure, starve, ◌>>=◌, load, load_tag, iks_tag, iks_none, iks_attribute, iks_cdata,
}
use iksemel.Iks.Seek.{seek, next_of, prev_of}
use iksemel.Iks.Create.{is_tag}

unfoldable pub iks_next : Ptr → Cmd Ptr
unfolding load
iks_next none = pure none
iks_next (some x) = do n ← load (some x); pure n.next

unfoldable pub iks_next_tag : ℕ → Ptr → Cmd Ptr
unfolding load seek
iks_next_tag fuel none = pure none
iks_next_tag fuel (some x) = do
  n ← load (some x)
  seek next_of (λ y. pure (is_tag y.type)) fuel n.next

unfoldable pub iks_prev : Ptr → Cmd Ptr
unfolding load
iks_prev none = pure none
iks_prev (some x) = do n ← load (some x); pure n.prev

unfoldable pub iks_prev_tag : ℕ → Ptr → Cmd Ptr
unfolding load seek
iks_prev_tag fuel none = pure none
iks_prev_tag fuel (some x) = do
  n ← load (some x)
  seek prev_of (λ y. pure (is_tag y.type)) fuel n.prev

unfoldable pub iks_parent : Ptr → Cmd Ptr
unfolding load
iks_parent none = pure none
iks_parent (some x) = do n ← load (some x); pure n.parent

-- `while (x->parent) x = x->parent;`
unfoldable pub climb : ℕ → ℕ → Cmd Ptr
unfolding load
climb zero x = starve
climb (suc fuel) x = do
  n ← load (some x)
  elim n.parent [ none ↦ pure (some x) | some p ↦ climb fuel p ]

unfoldable pub iks_root : ℕ → Ptr → Cmd Ptr
unfolding climb
iks_root fuel none = pure none
iks_root fuel (some x) = climb fuel x

unfoldable pub iks_child : Ptr → Cmd Ptr
unfolding load load_tag
iks_child none = pure none
iks_child (some x) = do
  n ← load (some x)
  elim n.type [
    | iks_tag ↦ do t ← load_tag (some x); pure t.children
    | iks_none ↦ pure none
    | iks_attribute ↦ pure none
    | iks_cdata ↦ pure none
  ]

unfoldable pub iks_first_tag : ℕ → Ptr → Cmd Ptr
unfolding load_tag seek
iks_first_tag fuel none = pure none
iks_first_tag fuel (some x) = do
  t ← load_tag (some x)
  seek next_of (λ y. pure (is_tag y.type)) fuel t.children

unfoldable pub iks_attrib : Ptr → Cmd Ptr
unfolding load_tag
iks_attrib none = pure none
iks_attrib (some x) = do t ← load_tag (some x); pure t.attribs
