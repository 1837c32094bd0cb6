-- ===== src/Iks/Create/Steps.antt =====
-- What single commands of src/iks.c do to nodes that are known.
use iksemel.Base.{ℕ, true, false, ◌==◌, if◌then◌else◌, Option, some, ◌≡◌, ◌≢◌, refl, arith}
use mathlib.Core.Path.{fun_ext}
use iksemel.Iks.Heap.{Node, TagBody, tag, Heap, ok, write, load, modify, load_tag, set_tag}

pub write_here : (m : ℕ → Option Node) (a : ℕ) (n : Node) → write m a n a ≡ some n
unfolding write
write_here m a n = ground arith

pub write_other : (m : ℕ → Option Node) (a b : ℕ) (n : Node) → b ≢ a → write m a n b ≡ m b
unfolding write
write_other m a b n ne = ground arith

pub write_twice : (m : ℕ → Option Node) (a : ℕ) (n k : Node) → write (write m a n) a k ≡ write m a k
unfolding write
write_twice m a n k = fun_ext λ b.
    elim (b == a)
      as (λ e. (if e then some k else if e then some n else m b) ≡ (if e then some k else m b)) [
        | true ↦ refl
        | false ↦ refl
      ]

-- the heap with other nodes
abbrev pub with_nodes : Heap → (ℕ → Option Node) → Heap
with_nodes h m = record h { node = m }

module _ (h : Heap) (a : ℕ) (n : Node) (here : h.node a ≡ some n) where
  pub load_at : load (some a) h ≡ ok n h
  unfolding load
  load_at = rw (load, here)

  pub modify_at :
      (f : Node → Node) → modify (some a) f h ≡ ok tt (with_nodes h (write h.node a (f n)))
  unfolding modify load
  modify_at f = rw (modify, load, here)

  pub load_tag_at : (t : TagBody) → n.body ≡ tag t → load_tag (some a) h ≡ ok t h
  unfolding load_tag load
  load_tag_at t e = rw (load_tag, load, here, e)

  pub set_tag_at :
      (t : TagBody) (f : TagBody → TagBody)
      → n.body ≡ tag t
      → set_tag (some a) f h ≡ ok tt (with_nodes h (write h.node a (record n { body = tag (f t) })))
  unfolding set_tag load_tag load modify
  set_tag_at t f e = rw (set_tag, load_tag, load, here, e, modify, load, here)
