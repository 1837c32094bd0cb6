-- ===== src/Iks/Create/Lost.antt =====
-- `iks_insert_cdata` of src/iks.c where there is no memory for a longer text.
use iksemel.Base.{ℕ, suc, ◌+◌, false, none, some, List, Bytes, length, ◌≡◌}
use iksemel.Iks.Heap.{Ptr, cdata, Heap, ok, load, load_tag, request, joined_string, write}
use iksemel.Iks.Tree.{Att, Forest, last_from, element_node, text_node}
use iksemel.Iks.Create.Node.{length_of, extend_cdata, iks_insert_cdata}
use iksemel.Iks.Create.Steps.{modify_at}

-- Where the last child of an element is text and the request for memory is refused,
-- `iks_insert_cdata` of more text still returns that child, as if it had succeeded: the text is
-- NULL then, and its length counts the old and the new bytes.
pub iks_insert_cdata-lost :
    (h : Heap) (s x l : ℕ) (parent prev next above left right : Ptr) (own : Bytes) (atts : List Att)
    (kids : Forest) (old src : Bytes) (len : ℕ)
    → h.node x ≡ some (element_node s parent prev next own atts kids)
    → last_from none kids ≡ some l
    → h.node l ≡ some (text_node s above left right old)
    → h.grants h.fresh ≡ false
    → iks_insert_cdata (some x) (some src) len h
      ≡ ok (some l) (record h {
        fresh = suc h.fresh;
        node = write h.node l (record (text_node s above left right old) {
          body = cdata none (length old + length_of src len);
        });
      })
unfolding iks_insert_cdata extend_cdata joined_string request load load_tag
iks_insert_cdata-lost h s x l parent prev next above left right own atts kids old src len here end
      at refused =
    rw (
      iks_insert_cdata,
      load,
      here,
      load_tag,
      load,
      here,
      end,
      load,
      at,
      extend_cdata,
      load,
      at,
      joined_string,
      request,
      refused,
      modify_at (record h { fresh = suc h.fresh }) l _ at
          (λ n. record n { body = cdata none (length old + length_of src len) }),
    )
