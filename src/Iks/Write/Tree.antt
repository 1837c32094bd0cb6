-- ===== src/Iks/Write/Tree.antt =====
-- The loop of `iks_string` in src/iks.c on nodes that hold a tree.
use iksemel.Base.{
  ℕ, suc, ◌+◌, ◌≤◌, true, false, leb, none, some, List, Bytes, length, ◌≡◌, refl, ◌∙◌, take_all,
  arith,
}
use iksemel.Iks.Heap.{Ptr, Node, Heap, ok, and_then, load, load_tag, TagBody, tag}
use iksemel.Iks.Write.{Pass, again, closing, to_next, to_parent, behind, visit, walk}
use iksemel.Iks.Tree.{
  Att, Forest, empty, element, text, head, HoldsAtts, Holds, element_node, text_node,
}
use iksemel.Iks.Write.Fold.{
  spend, width, pass_atts, pass_forest, enter, walk_attribs-pass_atts, spend_lem,
}

-- the node at `a` is a tag of this name
pub record Named (h : Heap) (a : ℕ) (name : Bytes) : Type 0 where
  pub node : Node
  pub fields : TagBody
  pub here : h.node a ≡ some node
  pub body : node.body ≡ tag fields
  pub named : fields.name ≡ some name

Named-element :
    {h : Heap} {a s : ℕ} {parent prev next : Ptr} {name : Bytes} (atts : List Att) (kids : Forest)
    → h.node a ≡ some (element_node s parent prev next name atts kids)
    → Named h a name
Named-element atts kids here = record {
  node = _;
  fields = _;
  here = here;
  body = refl;
  named = refl;
}

module _ {S : Type 0} (p : Pass S) (h : Heap) where
  -- a node whose next one is the first of `rest`, or that is the last child of `parent`
  behind-enter :
      (l : ℕ) (n : Node) (rest : Forest) (a : ℕ) (name : Bytes) (acc : S)
      → n.next ≡ head rest
      → n.parent ≡ some a
      → Named h a name
      → behind p (suc l) n acc h ≡ ok (enter p l rest (some a) name acc) h
  unfolding behind to_next to_parent load_tag load
  behind-enter l n empty a name acc next parent up =
      rw (behind, next, to_parent, parent, load_tag, load, up.here, up.body, up.named)
  behind-enter l n (text b c k) a name acc next parent up = rw (behind, next)
  behind-enter l n (element b m at j k) a name acc next parent up = rw (behind, next)

  visit-text :
      (fuel level s : ℕ) (parent prev next : Ptr) (c : Bytes) (acc : S)
      → visit p fuel level (text_node s parent prev next c) acc h
        ≡ behind p level (text_node s parent prev next c) (p.text acc c) h
  unfolding visit
  visit-text fuel level s parent prev next c acc =
      let all : leb (length c) (length c) ≡ true = ground arith in rw (all, take_all c)

  module _ (fuel s : ℕ) (at : ℕ) (parent prev next : Ptr) (name : Bytes) (atts : List Att)
      (acc : S) where
    visit-empty :
        (level : ℕ)
        → length atts ≤ fuel
        → HoldsAtts h.node s (some at) none atts
        → visit p fuel level (element_node s parent prev next name atts empty) acc h
          ≡ behind p level
              (element_node s parent prev next name atts empty)
              (p.single_end (pass_atts p atts (p.start acc name)))
              h
    unfolding visit
    visit-empty level le held =
        rw (walk_attribs-pass_atts p fuel h s (some at) none atts (p.start acc name) le held)

    visit-kids :
        (level : ℕ) (kids : Forest) (c : ℕ)
        → head kids ≡ some c
        → length atts ≤ fuel
        → HoldsAtts h.node s (some at) none atts
        → visit p fuel level (element_node s parent prev next name atts kids) acc h
          ≡ ok
              (again (suc level) true (some c) (p.open_end (pass_atts p atts (p.start acc name))))
              h
    unfolding visit
    visit-kids level kids c first le held =
        rw (walk_attribs-pass_atts p fuel h s (some at) none atts (p.start acc name) le held, first)

    -- down to the children, and back to the element
    walk-around :
        (level left : ℕ) (kids : Forest) (c : ℕ) (closed : S)
        → head kids ≡ some c
        → length atts ≤ fuel
        → HoldsAtts h.node s (some at) none atts
        → h.node at ≡ some (element_node s parent prev next name atts kids)
        → walk p fuel
            (again (suc level) true (some c) (p.open_end (pass_atts p atts (p.start acc name))))
            h
          ≡ walk p (suc left) (again level false (some at) closed) h
        → walk p (suc fuel) (again level true (some at) acc) h
          ≡ and_then
              (behind p level (element_node s parent prev next name atts kids) closed h)
              (walk p left)
    unfolding walk load
    walk-around level left kids c closed first le held here e =
        rw (walk, load, here, visit-kids level kids c first le held, e, walk, load, here)

  -- an element with children, once they and the rest are known
  walk-through :
      (l s f a at : ℕ) (name n : Bytes) (prev : Ptr) (atts : List Att) (kids rest : Forest) (c : ℕ)
      (acc : S)
      → let closed =
          p.close (pass_forest p kids (p.open_end (pass_atts p atts (p.start acc n)))) n in
        head kids ≡ some c
        → length atts + width kids + width rest ≤ f
        → Named h a name
        → h.node at ≡ some (element_node s (some a) prev (head rest) n atts kids)
        → HoldsAtts h.node s (some at) none atts
        → walk p
            (spend kids (suc (spend rest f)))
            (again (suc (suc l)) true (some c) (p.open_end (pass_atts p atts (p.start acc n))))
            h
          ≡ walk p (suc (spend rest f)) (again (suc l) false (some at) closed) h
        → walk p (spend rest f) (enter p l rest (some a) name closed) h
          ≡ walk p f (closing l (some a) (p.close (pass_forest p rest closed) name)) h
        → walk p (suc (spend kids (suc (spend rest f)))) (again (suc l) true (some at) acc) h
          ≡ walk p f (closing l (some a) (p.close (pass_forest p rest closed) name)) h
  walk-through l s f a at name n prev atts kids rest c acc first le up here own down on =
      let few : length atts ≤ spend kids (suc (spend rest f)) =
        omega (arith, spend_lem kids (suc (spend rest f)), spend_lem rest f) in
      walk-around (spend kids (suc (spend rest f))) s at (some a) prev (head rest) n atts acc
        (suc l) (spend rest f) kids c _ first few own here down
      ∙ rw
          (behind-enter l (element_node s (some a) prev (head rest) n atts kids) rest a name _ refl
            refl up)
          on

  walk-pass_forest :
      (l s f a : ℕ) (name : Bytes) (prev : Ptr) (t : Forest) (acc : S)
      → width t ≤ f
      → Named h a name
      → Holds h.node s (some a) prev t
      → walk p (spend t f) (enter p l t (some a) name acc) h
        ≡ walk p f (closing l (some a) (p.close (pass_forest p t acc) name)) h
  unfolding walk load spend width pass_forest
  walk-pass_forest l s f a name prev empty acc le up held = refl
  walk-pass_forest l s f a name prev (text at c rest) acc le up (here, held) =
      rw
        (
          walk,
          load,
          here,
          visit-text (spend rest f) (suc l) s (some a) prev (head rest) c acc,
          behind-enter l (text_node s (some a) prev (head rest) c) rest a name (p.text acc c) refl
              refl up,
        )
        (walk-pass_forest l s f a name (some at) rest (p.text acc c) le up held)
  walk-pass_forest l s f a name prev (element at n atts empty rest) acc le up
        (here, _, own, _, held) =
      let inside = p.single_end (pass_atts p atts (p.start acc n)) in
      let few : length atts ≤ spend rest f = omega (arith, spend_lem rest f) in
      rw
        (
          walk,
          load,
          here,
          visit-empty (spend rest f) s at (some a) prev (head rest) n atts acc (suc l) few own,
          behind-enter l (element_node s (some a) prev (head rest) n atts empty) rest a name inside
              refl refl up,
        )
        (walk-pass_forest l s f a name (some at) rest inside (omega arith) up held)
  walk-pass_forest l s f a name prev (element at n atts (text b c k) rest) acc le up
        (here, _, own, below, held) =
      walk-through l s f a at name n prev atts (text b c k) rest b acc refl le up here own
        (walk-pass_forest (suc l) s (suc (spend rest f)) at n none (text b c k) _
          (omega (arith, spend_lem rest f)) (Named-element atts (text b c k) here) below)
        (walk-pass_forest l s f a name (some at) rest _ (omega arith) up held)
  walk-pass_forest l s f a name prev (element at n atts (element b m j i k) rest) acc le up
        (here, _, own, below, held) =
      walk-through l s f a at name n prev atts (element b m j i k) rest b acc refl le up here own
        (walk-pass_forest (suc l) s (suc (spend rest f)) at n none (element b m j i k) _
          (omega (arith, spend_lem rest f)) (Named-element atts (element b m j i k) here) below)
        (walk-pass_forest l s f a name (some at) rest _ (omega arith) up held)

  -- `iks_string` of an element: the loop ends with what the pass makes of it, next to whatever it
  -- stands.
  pub walk-element :
      (s f at : ℕ) (parent prev next : Ptr) (name : Bytes) (atts : List Att) (kids : Forest)
      (acc : S)
      → width (element at name atts kids empty) ≤ f
      → h.node at ≡ some (element_node s parent prev next name atts kids)
      → HoldsAtts h.node s (some at) none atts
      → Holds h.node s (some at) none kids
      → walk p (spend (element at name atts kids empty) f) (again 0 true (some at) acc) h
        ≡ ok (pass_forest p (element at name atts kids empty) acc) h
  unfolding walk load spend width pass_forest behind to_next to_parent
  walk-element s f at parent prev none name atts empty acc le here own below =
      rw (walk, load, here, visit-empty f s at parent prev none name atts acc 0 (omega arith) own)
  walk-element s f at parent prev (some z) name atts empty acc le here own below =
      rw (
        walk,
        load,
        here,
        visit-empty f s at parent prev (some z) name atts acc 0 (omega arith) own,
      )
  walk-element s f at parent prev next name atts (text b c k) acc le here own below =
      rw
        (
          walk,
          load,
          here,
          visit-kids (spend (text b c k) (suc f)) s at parent prev next name atts acc 0 (text b c k)
              b refl (omega (arith, spend_lem (text b c k) (suc f))) own,
        )
        (walk-pass_forest 0 s (suc f) at name none (text b c k) _ (omega arith)
          (Named-element atts (text b c k) here) below)
  walk-element s f at parent prev next name atts (element b m j i k) acc le here own below =
      rw
        (
          walk,
          load,
          here,
          visit-kids (spend (element b m j i k) (suc f)) s at parent prev next name atts acc 0
              (element b m j i k) b refl (omega (arith, spend_lem (element b m j i k) (suc f))) own,
        )
        (walk-pass_forest 0 s (suc f) at name none (element b m j i k) _ (omega arith)
          (Named-element atts (element b m j i k) here) below)
