-- ===== src/Stream/Sent.antt =====
-- What goes out over a stream of src/stream.c: headers, and elements as text.
use iksemel.Base.{
  ℕ, suc, ◌+◌, ◌≤◌, if◌then◌else◌, none, some, List, Bytes, length, ◌≡◌, arith, Bool-cases, inl,
  inr,
}
use iksemel.Sax.Types.{iks_ok, iks_nomem}
use iksemel.Iks.Heap.{Ptr, Heap, request, fault}
use iksemel.Iks.Create.Steps.{load_at}
use iksemel.Iks.Info.{iks_stack}
use iksemel.Iks.Tree.{Att, Forest, empty, element, element_node, print, IsText, HoldsAtts, Holds}
use iksemel.Iks.Write.Fits.{answered}
use iksemel.Iks.Write.Print.{fuel_for, iks_string-print}
use iksemel.Stream.Types.{on_heap, Conn, Act, return, ◌>>=◌, ◌>>◌, put, if_ok, Outside}
use iksemel.Stream.Send.{header_text, iks_send_raw, iks_send_header, iks_send}
use iksemel.Stream.Bounds.{length-header_text, printed}

module _ {W : Type 0} (o : Outside W) where
  -- the header for this name, sent and noted
  abbrev pub send_and_note : Bytes → Bytes → Act W ℕ
  send_and_note text to = iks_send_raw o (some text) >>= λ err.
      if_ok err (put (λ e. record e { server = some to }) >> return iks_ok)

  -- `iks_send_header` asks for as many bytes as the header and its NUL take. Where they are granted, it
  -- sends the header and, if that succeeds, notes the name as that of the server; otherwise it returns
  -- IKS_NOMEM and sends nothing.
  pub iks_send_header-fits :
      (to : Bytes) (c : Conn W) (h : Heap)
      → let text = header_text c.stream.name_space to in
        iks_send_header o to c h
        ≡ (if o.malloc (length text + 1) then send_and_note text to else return iks_nomem) c h
  unfolding iks_send_header
  iks_send_header-fits to c h =
      printed o.malloc (91 + length c.stream.name_space + 6 + length to + 16 + 1)
        (header_text c.stream.name_space to) (send_and_note (header_text c.stream.name_space to) to)
        (return iks_nomem) c h (omega (arith, length-header_text c.stream.name_space to))

  -- a text in memory that may be refused, and sent if it is not
  answered-sent :
      (text : Bytes) (c : Conn W) (h : Heap)
      → (on_heap (answered text) >>= iks_send_raw o) c h
        ≡ (if h.grants h.fresh then iks_send_raw o (some text) c else λ g. fault)
            (record h { fresh = suc h.fresh })
  unfolding request iks_send_raw
  answered-sent text c h = elim (Bool-cases (h.grants h.fresh)) [
    | inl g ↦ rw (request, g)
    | inr g ↦ rw (request, g)
  ]

  -- Where the nodes hold an element and the fuel is enough, `iks_send` of it sends the text of the tree;
  -- where the memory for the text is refused, it reads through NULL.
  pub iks_send-print :
      (fuel : ℕ) (c : Conn W) (h : Heap) (s x : ℕ) (parent prev next : Ptr) (name : Bytes)
      (atts : List Att) (kids : Forest)
      → fuel_for (element x name atts kids empty) ≤ fuel
      → h.node x ≡ some (element_node s parent prev next name atts kids)
      → IsText name
      → HoldsAtts h.node s (some x) none atts
      → Holds h.node s (some x) none kids
      → let text = print (element x name atts kids empty) in
        iks_send o fuel (some x) c h
        ≡ (if h.grants h.fresh then iks_send_raw o (some text) c else λ g. fault)
            (record h { fresh = suc h.fresh })
  unfolding iks_send iks_stack
  iks_send-print fuel c h s x parent prev next name atts kids le here is own below =
      rw
        (
          iks_send,
          iks_stack,
          load_at h x _ here,
          iks_string-print fuel (some s) h s x parent prev next name atts kids le here is own below,
        )
        (answered-sent (print (element x name atts kids empty)) c h)
