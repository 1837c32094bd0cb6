-- ===== src/Dom/Hooks.antt =====
-- What the hook for tags of src/dom.c does to the tree that it builds.
use iksemel.Base.{
  ℕ, suc, true, false, ◌&&◌, ◌==◌, ltb, if◌then◌else◌, Option, none, some, List, [], ◌∷◌, Bytes,
  eq_bytes, eq_bytes_iff, ◌∙◌, ◌≡◌, refl,
}
use iksemel.Utility.Strings.{less, greater, strcmp, iks_strcmp}
use iksemel.Iks.Heap.{Ptr, Heap, ok, load}
use iksemel.Iks.Create.Insert.{Inserted}
use iksemel.Iks.Sim.{if_ok}
use iksemel.Iks.Tree.{empty, Att, Forest, element_node}
use iksemel.Iks.Move.{iks_parent}
use iksemel.Iks.Info.{iks_name}
use iksemel.Sax.Types.{iks_close, iks_single, iks_ok, iks_badxml}
use iksemel.Dom.{DomData, is_same, open_element, close_element, tag_hook}

strcmp-eq_bytes : (a b : Bytes) → is_same (strcmp a b) ≡ eq_bytes a b
unfolding strcmp eq_bytes
strcmp-eq_bytes [] [] = refl
strcmp-eq_bytes [] (y ∷ b) = refl
strcmp-eq_bytes (x ∷ a) [] = refl
strcmp-eq_bytes (x ∷ a) (y ∷ b) =
    elim (x == y)
      as (λ e.
        is_same (if e then strcmp a b else if ltb x y then less else greater)
        ≡ (e && eq_bytes a b)) [
          | true ↦ strcmp-eq_bytes a b
          | false ↦ elim (ltb x y) as (λ l. is_same (if l then less else greater) ≡ false) [
            | true ↦ refl
            | false ↦ refl
          ]
        ]

-- the data of the hooks while the element at `x` is open
abbrev pub in_element : Ptr → ℕ → ℕ → DomData
in_element tree chunk_size x = record { tree = tree; current = some x; chunk_size = chunk_size }

module _ (tree : Ptr) (chunk fuel : ℕ) where
  -- While the element `own` is open at `x`, the end tag of `name` makes its parent the open element,
  -- or, if there is none, makes `x` the tree and leaves no element open; with another name it is an error
  -- in the document, and nothing changes.
  pub tag_hook-close :
      (h : Heap) (s x : ℕ) (parent prev next : Ptr) (own : Bytes) (atts : List Att) (kids : Forest)
      (name : Bytes) (given : Option (List Bytes))
      → h.node x ≡ some (element_node s parent prev next own atts kids)
      → let d = in_element tree chunk x in
        tag_hook fuel d name given iks_close h
        ≡ ok
            (if eq_bytes own name
              then elim parent [
                | none ↦ (iks_ok, record { tree = some x; current = none; chunk_size = chunk })
                | some y ↦ (iks_ok, in_element tree chunk y)
              ]
              else (iks_badxml, d))
            h
  unfolding tag_hook close_element iks_parent iks_name load iks_strcmp
  tag_hook-close h s x none prev next own atts kids name given here =
      rw
        (
          tag_hook,
          close_element,
          iks_parent,
          load,
          here,
          iks_name,
          load,
          here,
          strcmp-eq_bytes own name,
        )
        (if_ok (eq_bytes own name) _ _ _ _ h refl refl)
  tag_hook-close h s x (some y) prev next own atts kids name given here =
      rw
        (
          tag_hook,
          close_element,
          iks_parent,
          load,
          here,
          iks_name,
          load,
          here,
          strcmp-eq_bytes own name,
        )
        (if_ok (eq_bytes own name) _ _ _ _ h refl refl)

  -- While the element at `x` is open and an insertion into it succeeds, the tag of an empty element
  -- without attributes leaves the nodes of that insertion, and `x` stays the open one.
  tag_hook-single :
      (h : Heap) (s x : ℕ) (parent prev next : Ptr) (own : Bytes) (atts : List Att) (kids : Forest)
      (name : Bytes) (i : Inserted h s x parent prev next own atts kids name)
      → let d = in_element tree chunk x in
        tag_hook fuel d name none iks_single h
        ≡ ok (iks_ok, d) (record h { fresh = suc (suc h.fresh); node = i.nodes })
  unfolding tag_hook open_element
  tag_hook-single h s x parent prev next own atts kids name i =
      let same : eq_bytes name name ≡ true = (eq_bytes_iff name name).1 refl in
      rw (tag_hook, open_element, i.run)
        (tag_hook-close (record h { fresh = suc (suc h.fresh); node = i.nodes }) s h.fresh (some x)
            _ none name [] empty name none i.made
          ∙ rw same)
