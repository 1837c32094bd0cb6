-- ===== src/Iks/Create/Made.antt =====
-- `iks_new_within` of src/iks.c where memory is granted: a tag without a place in a tree.
use iksemel.Base.{ℕ, suc, true, none, some, [], Bytes, ◌≡◌, refl}
use iksemel.Iks.Heap.{iks_tag, Node, Heap, ok, put_node, write, request, new_string, dup}
use iksemel.Iks.Tree.{element_node, empty}
use iksemel.Iks.Create.Node.{blank, no_tag, iks_new_within}
use iksemel.Iks.Create.Steps.{write_here, write_twice, set_tag_at}

-- the heap behind two requests, with this node at the address of the first one
abbrev pub with_new : Heap → Node → Heap
with_new h n = record h { fresh = suc (suc h.fresh); node = write h.node h.fresh n }

pub iks_new_within_lem :
    (h : Heap) (s : ℕ) (name : Bytes)
    → h.grants h.fresh ≡ true
    → h.grants (suc h.fresh) ≡ true
    → iks_new_within (some name) s h
      ≡ ok (some h.fresh) (with_new h (element_node s none none none (dup name 0) [] empty))
unfolding iks_new_within request put_node new_string
iks_new_within_lem h s name g k = rw (
  iks_new_within,
  g,
  k,
  set_tag_at (with_new h (blank s iks_tag (no_tag none))) h.fresh _ (write_here h.node h.fresh _) _
      (λ t. record t { name = some (dup name 0) }) refl,
  write_twice h.node h.fresh (blank s iks_tag (no_tag none)),
)
