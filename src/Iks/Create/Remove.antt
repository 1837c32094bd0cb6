-- ===== src/Iks/Create/Remove.antt =====
-- `iks_hide` and `iks_delete` of src/iks.c.
use iksemel.Base.{ℕ, ◌==◌, if◌then◌else◌, none, some}
use iksemel.Iks.Heap.{
  Ptr, ok, Cmd, ◌>>=◌, ◌>>◌, if_null, skip, load, modify, set_next, set_prev, load_tag, set_tag,
}
use iksemel.Iks.Create.Node.{same_ptr}

unfoldable pub iks_hide : Ptr → Cmd (Unit {0})
unfolding load modify load_tag set_tag
iks_hide none = skip
iks_hide (some x) = do
  n ← load (some x)
  if_null n.prev skip (λ p. set_next (some p) n.next)
  if_null n.next skip (λ q. set_prev (some q) n.prev)
  if_null n.parent skip λ y. do
    t ← load_tag (some y)
    if same_ptr t.children x then set_tag (some y) (λ u. record u { children = n.next }) else skip
    if same_ptr t.last_child x
        then set_tag (some y) (λ u. record u { last_child = n.prev })
        else skip

-- `iks_stack_delete`: the nodes of the stack are gone.
unfoldable pub free_stack : ℕ → Cmd (Unit {0})
free_stack s h = ok tt (record h {
  node = λ a. elim (h.node a) [ none ↦ none | some n ↦ if n.s == s then none else some n ];
})

unfoldable pub iks_delete : Ptr → Cmd (Unit {0})
unfolding load free_stack
iks_delete none = skip
iks_delete (some x) = do n ← load (some x); free_stack n.s
