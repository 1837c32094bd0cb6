-- ===== src/Iks/Write/Inserted.antt =====
-- `iks_string` of src/iks.c behind `iks_insert`.
use iksemel.Base.{ℕ, suc, ◌≤◌, true, Option, some, List, Bytes, [], ◌≡◌}
use iksemel.Iks.Heap.{Ptr, Node, Heap, ◌>>◌}
use iksemel.Iks.Tree.{Att, Forest, empty, element, print, IsText}
use iksemel.Iks.Tree.Frame.{append}
use iksemel.Iks.Tree.Element.{Element}
use iksemel.Iks.Create.{iks_insert}
use iksemel.Iks.Create.Insert.{iks_insert-Element}
use iksemel.Iks.Write.{iks_string}
use iksemel.Iks.Write.Fits.{answered}
use iksemel.Iks.Write.Print.{fuel_for, iks_string-print}

-- Where the nodes hold the element at `x`, memory is granted to `iks_insert` of a name without a NUL into it
-- and the fuel is enough, `iks_string` of the element behind that insertion returns the text of
-- the element with an empty element of the new name behind its other children, or NULL where its
-- request for memory is refused.
pub iks_string-iks_insert :
    (fuel : ℕ) (stack : Option ℕ) (h : Heap) (s x : ℕ) (parent prev next : Ptr) (own : Bytes)
    (atts : List Att) (kids : Forest) (name : Bytes)
    → Element h.node h.fresh s x parent prev next own atts kids
    → IsText name
    → h.grants h.fresh ≡ true
    → h.grants (suc h.fresh) ≡ true
    → let t = element x own atts (append kids (element h.fresh name [] empty empty)) empty in
      fuel_for t ≤ fuel
      → (nodes : ℕ → Option Node) × ((iks_insert (some x) (some name)
              >> iks_string fuel stack (some x))
            h
          ≡ answered (print t) (record h { fresh = suc (suc h.fresh); node = nodes }))
iks_string-iks_insert fuel stack h s x parent prev next own atts kids name old is g k le =
    let i = iks_insert-Element h s x parent prev next own atts name is g k kids old in
    (
      i.nodes,
      rw (i.run) (
          iks_string-print fuel stack (record h { fresh = suc (suc h.fresh); node = i.nodes }) s x
            parent prev next own atts _ le i.holds.here i.holds.named i.holds.own i.holds.below),
    )
