-- ===== src/Iks/Seek.antt =====
-- The loop of src/iks.c that goes from node to node until one passes a test.
use iksemel.Base.{ℕ, zero, suc, Bool, true, false, none, some}
use iksemel.Iks.Heap.{Ptr, Node, Cmd, pure, starve, ◌>>=◌, load}

-- the first node that passes `test` among `y` and those that `step` leads to, or NULL
unfoldable pub seek : (Node → Ptr) → (Node → Cmd Bool) → ℕ → Ptr → Cmd Ptr
unfolding load
seek step test fuel none = pure none
seek step test zero (some y) = starve
seek step test (suc fuel) (some y) = do
  n ← load (some y)
  found ← test n
  elim found [ true ↦ pure (some y) | false ↦ seek step test fuel (step n) ]

abbrev pub next_of : Node → Ptr
next_of n = n.next

abbrev pub prev_of : Node → Ptr
prev_of n = n.prev
