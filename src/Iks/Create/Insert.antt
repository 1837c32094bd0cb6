-- ===== src/Iks/Create/Insert.antt =====
-- `iks_insert` of src/iks.c on an element that nodes hold, where memory is granted.
use iksemel.Base.{
  ℕ, suc, ◌<◌, true, Option, none, some, List, [], Bytes, take_all, ◌≡◌, ◌≢◌, refl, sym, ◌∙◌, ap,
  arith,
}
use mathlib.Core.Path.{subst}
use iksemel.Iks.Heap.{Ptr, Node, Heap, ok, write, dup}
use iksemel.Iks.Tree.{
  Att, Forest, empty, element, text, head_or, last_from, IsText, element_node, first_att,
  last_att_from,
}
use iksemel.Iks.Tree.Frame.{
  EachAtt, Ends, EachAtt-map, Ends-map, Kept, NextSet, HoldsAtts-Kept, HoldsTo-NextSet, append,
  HoldsTo-append, last_from-append, head_or-append,
}
use iksemel.Iks.Tree.Element.{
  last_or, IsLast, Element, Found, HoldsTo-Found, last_from-last_or, last_or-append, last_or-Ends,
  Ends-append, EachAtt-Clear,
}
use iksemel.Iks.Create.Node.{iks_insert, link_child}
use iksemel.Iks.Create.Steps.{write_here, write_other, write_twice, with_nodes, load_at, modify_at}
use iksemel.Iks.Create.Made.{with_new, iks_new_within_lem}
use iksemel.Iks.Create.Link.{
  tag_of, link_child-first, link_child-more, linked, linked_other, linked_last, linked_new,
}

-- up to the links: a new tag whose parent is `x`
insert_linked :
    (h : Heap) (s x : ℕ) (n : Node) (name : Bytes) (m : ℕ → Option Node)
    → IsText name
    → h.grants h.fresh ≡ true
    → h.grants (suc h.fresh) ≡ true
    → h.node x ≡ some n
    → n.s ≡ s
    → let new = with_new h (element_node s (some x) none none name [] empty) in
      link_child (some x) (some h.fresh) new ≡ ok tt (with_nodes new m)
      → iks_insert (some x) (some name) h ≡ ok (some h.fresh) (with_nodes new m)
unfolding iks_insert
insert_linked h s x n name m is g k here e linked =
    let made = element_node s none none none name [] empty in
    let copied : dup name 0 ≡ name = rw (is, take_all name) in
    rw (
      iks_insert,
      load_at h x n here,
      e,
      iks_new_within_lem h s name g k,
      copied,
      modify_at (with_new h made) h.fresh made (write_here h.node h.fresh made)
          (λ y. record y { parent = some x }),
      write_twice h.node h.fresh made,
      linked,
    )

-- the outcome of an insertion into the element at `x`
pub record Inserted (h : Heap) (s x : ℕ) (parent prev next : Ptr) (own : Bytes) (atts : List Att)
    (kids : Forest) (name : Bytes) : Type 0 where
  pub nodes : ℕ → Option Node
  pub run :
      iks_insert (some x) (some name) h
      ≡ ok (some h.fresh) (record h { fresh = suc (suc h.fresh); node = nodes })
  pub holds :
      Element nodes
        (suc (suc h.fresh))
        s
        x
        parent
        prev
        next
        own
        atts
        (append kids (element h.fresh name [] empty empty))
  pub made : nodes h.fresh ≡ some (element_node s (some x) (last_from none kids) none name [] empty)
  pub elsewhere : (b : ℕ) → b ≢ x → b ≢ last_or x kids → b < h.fresh → nodes b ≡ h.node b

module _ (h : Heap) (s x : ℕ) (parent prev next : Ptr) (own : Bytes) (atts : List Att)
    (kids : Forest) (name : Bytes) (is : IsText name)
    (old : Element h.node h.fresh s x parent prev next own atts kids) where
  -- the tree that the nodes hold, once the links are known
  holds_inserted :
      (m : ℕ → Option Node)
      → m x
        ≡ some (
            element_node s parent prev next own atts
              (append kids (element h.fresh name [] empty empty)))
      → m h.fresh ≡ some (element_node s (some x) (last_from none kids) none name [] empty)
      → ((b : ℕ) → b ≢ x → b ≢ last_or x kids → b < h.fresh → m b ≡ h.node b)
      → Ends (Kept h.node m s) (NextSet h.node m s (some h.fresh)) kids
      → Element m
          (suc (suc h.fresh))
          s
          x
          parent
          prev
          next
          own
          atts
          (append kids (element h.fresh name [] empty empty))
  holds_inserted m at_x at_new elsewhere linked =
      let new = element h.fresh name [] empty empty in
      let kept : EachAtt (Kept h.node m s) atts =
        EachAtt-map (λ a (nx, nl, lt). elsewhere a nx nl lt) atts old.clear in
      record {
        here = at_x;
        named = old.named;
        own = HoldsAtts-Kept h.node m s (some x) none atts kept old.own;
        below =
            HoldsTo-append m s (some x) none none kids new
              (HoldsTo-NextSet h.node m s (some x) none (some h.fresh) kids linked old.below)
              (at_new, is, tt, tt, tt);
        under = omega arith;
        clear =
            rw (last_or-append x h.fresh name kids)
              (EachAtt-Clear h.fresh x (last_or x kids) atts old.clear);
        ends =
            rw (last_or-append x h.fresh name kids)
              (Ends-append h.fresh x (last_or x kids) name kids old.under old.ends);
      }

  abbrev next_set : Option Node → Option Node
  next_set none = none
  next_set (some n) = some (record n { next = some h.fresh })

  -- `link_child` on an element with children, of which the last one is at `l`
  link_grown :
      (c l : ℕ) (last : Node)
      → ((end : Ptr) → head_or end kids ≡ some c)
      → last_from none kids ≡ some l
      → h.node l ≡ some last
      → l ≢ x
      → l ≢ h.fresh
      → x ≢ h.fresh
      → let node = element_node s (some x) none none name [] empty in
        let grown =
          element_node s parent prev next own atts
            (append kids (element h.fresh name [] empty empty)) in
        link_child (some x) (some h.fresh) (with_new h node)
        ≡ ok tt (with_nodes (with_new h node) (linked h.node h.fresh l x node last grown))
  link_grown c l last first end at_l lx lf xf =
      let f = h.fresh in
      let new = element f name [] empty empty in
      let node = element_node s (some x) none none name [] empty in
      let plain = element_node s parent prev next own atts kids in
      let body : plain.body
          ≡ tag_of (some c) (some l) (first_att atts) (last_att_from none atts) (some own) =
        rw (first none, end) in
      let grown : element_node s parent prev next own atts (append kids new) ≡ record plain {
        body = tag_of (some c) (some f) (first_att atts) (last_att_from none atts) (some own);
      } =
        rw (head_or-append none kids new, first (some f), last_from-append none kids new) in
      link_child-more (with_new h node) x f plain (first_att atts) (last_att_from none atts)
        (some own) (write_other h.node f x node xf ∙ old.here) c l last node body
        (write_other h.node f l node lf ∙ at_l) (write_here h.node f node) (λ e. lx (sym e)) xf
        (λ e. lf (sym e))
      ∙ ap (λ n. ok tt (with_nodes (with_new h node) (linked h.node f l x node last n))) (sym grown)

  Inserted-more :
      (c : ℕ)
      → ((end : Ptr) → head_or end kids ≡ some c)
      → last_from none kids ≡ some (last_or x kids)
      → IsLast h.fresh x (last_or x kids) (last_or x kids)
      → Found h.node (last_from none kids)
      → h.grants h.fresh ≡ true
      → h.grants (suc h.fresh) ≡ true
      → Inserted h s x parent prev next own atts kids name
  Inserted-more c first end (_, lx, lt) found g k =
      let f = h.fresh in
      let l = last_or x kids in
      let new = element f name [] empty empty in
      let node = element_node s (some x) none none name [] empty in
      let (last, at_l) = subst (Found h.node) end found in
      let grown = element_node s parent prev next own atts (append kids new) in
      let m = linked h.node f l x node last grown in
      let lf : l ≢ f = ground arith in
      let xf : x ≢ f = let under = old.under in ground arith in
      let elsewhere : (b : ℕ) → b ≢ x → b ≢ l → b < f → m b ≡ h.node b =
        λ b bx bl lb. linked_other h.node f l x node last grown b bx bl (ground arith) in
      let at_new : m f ≡ some (element_node s (some x) (last_from none kids) none name [] empty) =
        rw end (linked_new h.node f l x node last grown (λ e. xf (sym e))) in
      record {
        nodes = m;
        run =
            insert_linked h s x _ name m is g k old.here refl
              (link_grown c l last first end at_l lx lf xf);
        holds = holds_inserted m (write_here _ x grown) at_new elsewhere (
            Ends-map (λ a (ax, al, af). elsewhere a ax al af)
              (λ a (al, _, _) n at.
                ap m al
                ∙ linked_last h.node f l x node last grown lx lf
                ∙ ap next_set (sym at_l ∙ sym (ap h.node al) ∙ at))
              kids old.ends);
        made = at_new;
        elsewhere = elsewhere;
      }

module _ (h : Heap) (s x : ℕ) (parent prev next : Ptr) (own : Bytes) (atts : List Att)
    (name : Bytes) (is : IsText name) (g : h.grants h.fresh ≡ true)
    (k : h.grants (suc h.fresh) ≡ true) where
  Inserted-first :
      Element h.node h.fresh s x parent prev next own atts empty
      → Inserted h s x parent prev next own atts empty name
  Inserted-first old =
      let f = h.fresh in
      let new = element f name [] empty empty in
      let node = element_node s (some x) none none name [] empty in
      let m = write h.node f node in
      let m' = write m x (element_node s parent prev next own atts new) in
      let xf : x ≢ f = let under = old.under in ground arith in
      let elsewhere : (b : ℕ) → b ≢ x → b ≢ x → b < f → m' b ≡ h.node b = λ b bx _ lb.
        let bf : b ≢ f = ground arith in write_other m x b _ bx ∙ write_other h.node f b _ bf in
      let at_new : m' f ≡ some (element_node s (some x) none none name [] empty) =
        write_other m x f _ (λ e. xf (sym e)) ∙ write_here h.node f _ in
      record {
        nodes = m';
        run = insert_linked h s x _ name m' is g k old.here refl (
            link_child-first (with_new h node) x f (element_node s parent prev next own atts empty)
              (first_att atts) (last_att_from none atts) (some own)
              (write_other h.node f x _ xf ∙ old.here) refl);
        holds =
            holds_inserted h s x parent prev next own atts empty name is old m' (write_here m x _)
              at_new elsewhere tt;
        made = at_new;
        elsewhere = elsewhere;
      }

  -- Where both requests for memory are granted, `iks_insert` of a name without a NUL into an
  -- element that the nodes hold returns the first fresh address; then the nodes hold the element
  -- with one more child behind the others, which has the name and neither attributes nor children,
  -- and only the element itself and its last child have changed.
  pub iks_insert-Element :
      (kids : Forest)
      → Element h.node h.fresh s x parent prev next own atts kids
      → Inserted h s x parent prev next own atts kids name
  iks_insert-Element empty old = Inserted-first old
  iks_insert-Element (text at c rest) old =
      let ends = old.ends in
      Inserted-more h s x parent prev next own atts (text at c rest) name is old at (λ e. refl)
        (last_from-last_or at rest) (last_or-Ends _ _ rest at ends.0 ends.1)
        (HoldsTo-Found h.node s (some x) none none none (text at c rest) tt old.below) g k
  iks_insert-Element (element at n a j rest) old =
      let (there, _, _, behind) = old.ends in
      Inserted-more h s x parent prev next own atts (element at n a j rest) name is old at
        (λ e. refl) (last_from-last_or at rest) (last_or-Ends _ _ rest at there behind)
        (HoldsTo-Found h.node s (some x) none none none (element at n a j rest) tt old.below) g k
