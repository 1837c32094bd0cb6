-- ===== src/Iks/Create/Refused.antt =====
-- `iks_insert` of src/iks.c where memory is refused.
use iksemel.Base.{ℕ, suc, ◌<◌, true, false, ◌&&◌, none, some, Bytes, ◌≡◌, refl, arith}
use iksemel.Iks.Heap.{iks_tag, Node, Heap, ok, write, request, new_string, put_node}
use iksemel.Iks.Create.Node.{blank, no_tag, iks_new_within, iks_insert}
use iksemel.Iks.Create.Steps.{load_at, write_other}

-- an insertion that failed: NULL, and the nodes that there were are unchanged
pub record Refused (h : Heap) (x : ℕ) (name : Bytes) : Type 0 where
  pub after : Heap
  pub run : iks_insert (some x) (some name) h ≡ ok none after
  pub elsewhere : (b : ℕ) → b < h.fresh → after.node b ≡ h.node b

module _ (h : Heap) (x : ℕ) (n : Node) (name : Bytes) (here : h.node x ≡ some n) where
  -- Where a request for memory is refused, that for the node or that for its name, `iks_insert`
  -- returns NULL and leaves every node as it is.
  pub iks_insert-Refused : h.grants h.fresh && h.grants (suc h.fresh) ≡ false → Refused h x name
  unfolding iks_insert iks_new_within request put_node new_string
  iks_insert-Refused =
      elim (h.grants h.fresh)
          as (λ g. h.grants h.fresh ≡ g → g && h.grants (suc h.fresh) ≡ false → Refused h x name) [
            | false ↦ λ e _. record {
              after = record h { fresh = suc h.fresh };
              run = rw (iks_insert, load_at h x n here, iks_new_within, e);
              elsewhere = λ b lt. refl;
            }
            | true ↦ λ e k. record {
              after = record h {
                fresh = suc (suc h.fresh);
                node = write h.node h.fresh (blank n.s iks_tag (no_tag none));
              };
              run = rw (iks_insert, load_at h x n here, iks_new_within, e, k);
              elsewhere = λ b lt. write_other h.node h.fresh b _ (ground arith);
            }
          ]
        refl
