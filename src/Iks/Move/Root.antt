-- ===== src/Iks/Move/Root.antt =====
-- The way up to the root of a tree of src/iks.c.
use iksemel.Base.{ℕ, zero, suc, ◌<◌, Option, none, some, List, [], ◌∷◌, length, ◌≡◌, arith}
use iksemel.Iks.Heap.{Node, Heap, ok, load}
use iksemel.Iks.Move.{climb, iks_root}

-- the parents of the node at `x`, up to a node that has none
abbrev pub Parents : (ℕ → Option Node) → ℕ → List ℕ → Type 0
Parents m x [] = (n : Node) × (m x ≡ some n) × (n.parent ≡ none)
Parents m x (p ∷ ps) = (n : Node) × (m x ≡ some n) × (n.parent ≡ some p) × Parents m p ps

abbrev pub topmost : ℕ → List ℕ → ℕ
topmost x [] = x
topmost x (p ∷ ps) = topmost p ps

climb-topmost :
    (h : Heap) (fuel x : ℕ) (ps : List ℕ)
    → length ps < fuel
    → Parents h.node x ps
    → climb fuel x h ≡ ok (some (topmost x ps)) h
unfolding climb load
climb-topmost h zero x ps lt up = absurd (omega arith)
climb-topmost h (suc fuel) x [] lt (n, here, root) = rw (climb, load, here, root)
climb-topmost h (suc fuel) x (p ∷ ps) lt (n, here, parent, up) =
    rw (climb, load, here, parent) (climb-topmost h fuel p ps (omega arith) up)

-- From a node with finitely many nodes above it, and fuel for each of them and itself, `iks_root`
-- ends, leaves the nodes as they are, and returns the topmost of them.
pub iks_root-topmost :
    (h : Heap) (fuel x : ℕ) (ps : List ℕ)
    → length ps < fuel
    → Parents h.node x ps
    → iks_root fuel (some x) h ≡ ok (some (topmost x ps)) h
unfolding iks_root
iks_root-topmost h fuel x ps lt up = climb-topmost h fuel x ps lt up
