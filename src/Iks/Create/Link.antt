-- ===== src/Iks/Create/Link.antt =====
-- How `iks_insert` and `iks_insert_node` of src/iks.c link a node behind the last child.
use iksemel.Base.{ℕ, Option, none, some, Bytes, ◌≡◌, ◌≢◌, refl, ◌∙◌}
use iksemel.Iks.Heap.{Ptr, Node, Body, tag, Heap, ok, write}
use iksemel.Iks.Create.Node.{link_child}
use iksemel.Iks.Create.Steps.{
  write_here, write_other, write_twice, with_nodes, load_tag_at, set_tag_at, modify_at,
}

-- the fields of a tag that has these attributes and this name
abbrev pub tag_of : Ptr → Ptr → Ptr → Ptr → Option Bytes → Body
tag_of children last_child attribs last_attrib name = tag (record {
  children = children;
  last_child = last_child;
  attribs = attribs;
  last_attrib = last_attrib;
  name = name;
})

module _ (h : Heap) (x y : ℕ) (n : Node) (fa la : Ptr) (name : Option Bytes)
    (here : h.node x ≡ some n) where
  pub link_child-first :
      n.body ≡ tag_of none none fa la name
      → link_child (some x) (some y) h
        ≡ ok tt (
            with_nodes h (write h.node x (record n { body = tag_of (some y) (some y) fa la name })))
  unfolding link_child
  link_child-first body = rw (
    link_child,
    load_tag_at h x n here _ body,
    set_tag_at h x n here _ (λ u. record u { children = some y }) body,
    set_tag_at (with_nodes h (write h.node x (record n { body = tag_of (some y) none fa la name })))
        x _ (write_here h.node x _) _ (λ u. record u { last_child = some y }) refl,
    write_twice h.node x,
  )

  pub link_child-more :
      (c l : ℕ) (last new : Node)
      → n.body ≡ tag_of (some c) (some l) fa la name
      → h.node l ≡ some last
      → h.node y ≡ some new
      → x ≢ l
      → x ≢ y
      → y ≢ l
      → let m = write h.node l (record last { next = some y }) in
        link_child (some x) (some y) h
        ≡ ok tt (
            with_nodes h (
              write
                (write m y (record new { prev = some l }))
                x
                (record n { body = tag_of (some c) (some y) fa la name })))
  unfolding link_child
  link_child-more c l last new body at_l at_y xl xy yl =
      let m = write h.node l (record last { next = some y }) in
      let m' = write m y (record new { prev = some l }) in
      rw (
        link_child,
        load_tag_at h x n here _ body,
        modify_at h l last at_l (λ k. record k { next = some y }),
        modify_at (with_nodes h m) y new (write_other h.node l y _ yl ∙ at_y)
            (λ k. record k { prev = some l }),
        set_tag_at (with_nodes h m') x n
            (write_other m y x _ xy ∙ write_other h.node l x _ xl ∙ here) _
            (λ u. record u { last_child = some y }) body,
      )

-- the nodes behind `iks_insert`: `new` at `f`, behind the last child at `l` of the tag at `x`
module _ (m : ℕ → Option Node) (f l x : ℕ) (new last grown : Node) where
  abbrev pub linked : ℕ → Option Node
  linked =
      write
        (write (write (write m f new) l (record last { next = some f })) f
          (record new { prev = some l }))
        x grown

  pub linked_other : (b : ℕ) → b ≢ x → b ≢ l → b ≢ f → linked b ≡ m b
  linked_other b bx bl bf =
      write_other _ x b _ bx
      ∙ write_other _ f b _ bf
      ∙ write_other _ l b _ bl
      ∙ write_other m f b _ bf

  pub linked_last : l ≢ x → l ≢ f → linked l ≡ some (record last { next = some f })
  linked_last lx lf = write_other _ x l _ lx ∙ write_other _ f l _ lf ∙ write_here _ l _

  pub linked_new : f ≢ x → linked f ≡ some (record new { prev = some l })
  linked_new fx = write_other _ x f _ fx ∙ write_here _ f _
