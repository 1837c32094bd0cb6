-- ===== src/Iks/Find/First.antt =====
-- What the searches of src/iks.c find among the children and attributes that nodes hold.
use iksemel.Base.{
  ℕ, zero, suc, ◌≤◌, true, false, if◌then◌else◌, Option, none, some, List, [], ◌∷◌, Bytes, length,
  eq_bytes, ◌≡◌, refl, arith,
}
use iksemel.Iks.Heap.{TagBody, Node, tag, and_then, Ptr, Heap, ok, load, load_tag, load_attrib}
use iksemel.Iks.Seek.{seek, next_of}
use iksemel.Iks.Tree.{Att, Forest, empty, element, text, head, first_att, HoldsAtts, Holds}
use iksemel.Iks.Tree.Element.{Element}
use iksemel.Iks.Find.{
  tag_of_name, attrib_value, first_cdata, iks_find_cdata, iks_find, iks_find_attrib,
}

-- the number of siblings
abbrev pub siblings : Forest → ℕ
siblings empty = 0
siblings (text at s rest) = suc (siblings rest)
siblings (element at name atts kids rest) = suc (siblings rest)

-- the first element of this name among siblings
abbrev pub first_named : Bytes → Forest → Ptr
first_named name empty = none
first_named name (text at s rest) = first_named name rest
first_named name (element at n atts kids rest) =
    if eq_bytes n name then some at else first_named name rest

-- the value of the first attribute of this name
abbrev pub value_of : Bytes → List Att → Option Bytes
value_of name [] = none
value_of name (a ∷ atts) = if eq_bytes a.name name then some a.value else value_of name atts

-- the text that a forest starts with
abbrev pub text_first : Forest → Option Bytes
text_first empty = none
text_first (text at s rest) = some s
text_first (element at name atts kids rest) = none

-- the text that the first element of this name starts with
abbrev pub text_in : Bytes → Forest → Option Bytes
text_in name empty = none
text_in name (text at s rest) = text_in name rest
text_in name (element at n atts kids rest) =
    if eq_bytes n name then text_first kids else text_in name rest

module _ (h : Heap) (s : ℕ) (name : Bytes) where
  seek-first_named :
      (fuel : ℕ) (parent prev : Ptr) (t : Forest)
      → siblings t ≤ fuel
      → Holds h.node s parent prev t
      → seek next_of (tag_of_name name) fuel (head t) h ≡ ok (first_named name t) h
  unfolding seek load
  seek-first_named fuel parent prev empty le held = refl
  seek-first_named zero parent prev (text at c rest) le held = absurd (omega arith)
  seek-first_named zero parent prev (element at n atts kids rest) le held = absurd (omega arith)
  seek-first_named (suc fuel) parent prev (text at c rest) le (here, held) =
      rw (seek, load, here) (seek-first_named fuel parent (some at) rest (omega arith) held)
  seek-first_named (suc fuel) parent prev (element at n atts kids rest) le (here, _, _, _, held) =
      elim (eq_bytes n name)
          as (λ b.
            eq_bytes n name ≡ b
            → seek next_of (tag_of_name name) (suc fuel) (some at) h
              ≡ ok (if b then some at else first_named name rest) h) [
                | true ↦ λ e. rw (seek, load, here, e)
                | false ↦ λ e.
                    rw (seek, load, here, e)
                      (seek-first_named fuel parent (some at) rest (omega arith) held)
              ]
        refl

  -- On an element that the nodes hold, with fuel for each child, `iks_find` ends and returns the
  -- first child that is an element of the name, or NULL if there is none.
  pub iks_find-first_named :
      (fuel bound x : ℕ) (parent prev next : Ptr) (own : Bytes) (atts : List Att) (kids : Forest)
      → siblings kids ≤ fuel
      → Element h.node bound s x parent prev next own atts kids
      → iks_find fuel (some x) name h ≡ ok (first_named name kids) h
  unfolding iks_find load_tag load
  iks_find-first_named fuel bound x parent prev next own atts kids le e =
      rw (iks_find, load_tag, load, e.here) (seek-first_named fuel (some x) none kids le e.below)

  pub attrib_value-value_of :
      (fuel : ℕ) (parent prev : Ptr) (atts : List Att)
      → length atts ≤ fuel
      → HoldsAtts h.node s parent prev atts
      → attrib_value fuel (first_att atts) name h ≡ ok (value_of name atts) h
  unfolding attrib_value seek load load_attrib
  attrib_value-value_of fuel parent prev [] le held = refl
  attrib_value-value_of zero parent prev (a ∷ atts) le held = absurd (omega arith)
  attrib_value-value_of (suc fuel) parent prev (a ∷ atts) le (here, _, _, held) =
      elim (eq_bytes a.name name)
          as (λ b.
            eq_bytes a.name name ≡ b
            → attrib_value (suc fuel) (some a.at) name h
              ≡ ok (if b then some a.value else value_of name atts) h) [
                | true ↦ λ e. rw (attrib_value, seek, load, here, e, load_attrib, load, here)
                | false ↦ λ e.
                    rw (attrib_value, seek, load, here, e)
                      (attrib_value-value_of fuel parent (some a.at) atts (omega arith) held)
              ]
        refl

  -- On an element that the nodes hold, with fuel for each attribute, `iks_find_attrib` ends and
  -- returns the value of the first attribute of the name, or NULL if there is none.
  pub iks_find_attrib-value_of :
      (fuel bound x : ℕ) (parent prev next : Ptr) (own : Bytes) (atts : List Att) (kids : Forest)
      → length atts ≤ fuel
      → Element h.node bound s x parent prev next own atts kids
      → iks_find_attrib fuel (some x) name h ≡ ok (value_of name atts) h
  unfolding iks_find_attrib load_tag load
  iks_find_attrib-value_of fuel bound x parent prev next own atts kids le e =
      rw (iks_find_attrib, load_tag, load, e.here)
        (attrib_value-value_of fuel (some x) none atts le e.own)

  first_cdata-text_first :
      (at : ℕ) (n : Node) (t : TagBody) (kids : Forest)
      → h.node at ≡ some n
      → n.body ≡ tag t
      → t.children ≡ head kids
      → Holds h.node s (some at) none kids
      → first_cdata (some at) h ≡ ok (text_first kids) h
  unfolding first_cdata load_tag load
  first_cdata-text_first at n t empty here body first below =
      rw (first_cdata, load_tag, load, here, body, first)
  first_cdata-text_first at n t (text b c k) here body first (there, _) =
      rw (first_cdata, load_tag, load, here, body, first, load, there)
  first_cdata-text_first at n t (element b m a j k) here body first (there, _, _, _, _) =
      rw (first_cdata, load_tag, load, here, body, first, load, there)

  seek-text_in :
      (fuel : ℕ) (parent prev : Ptr) (t : Forest)
      → siblings t ≤ fuel
      → Holds h.node s parent prev t
      → and_then (seek next_of (tag_of_name name) fuel (head t) h) first_cdata
        ≡ ok (text_in name t) h
  unfolding seek load first_cdata
  seek-text_in fuel parent prev empty le held = refl
  seek-text_in zero parent prev (text at c rest) le held = absurd (omega arith)
  seek-text_in zero parent prev (element at n atts kids rest) le held = absurd (omega arith)
  seek-text_in (suc fuel) parent prev (text at c rest) le (here, held) =
      rw (seek, load, here) (seek-text_in fuel parent (some at) rest (omega arith) held)
  seek-text_in (suc fuel) parent prev (element at n atts kids rest) le (here, _, _, below, held) =
      elim (eq_bytes n name)
          as (λ b.
            eq_bytes n name ≡ b
            → and_then (seek next_of (tag_of_name name) (suc fuel) (some at) h) first_cdata
              ≡ ok (if b then text_first kids else text_in name rest) h) [
                | true ↦ λ e.
                    rw (seek, load, here, e)
                      (first_cdata-text_first at _ _ kids here refl refl below)
                | false ↦ λ e.
                    rw (seek, load, here, e)
                      (seek-text_in fuel parent (some at) rest (omega arith) held)
              ]
        refl

  -- On an element that the nodes hold, with fuel for each child, `iks_find_cdata` ends and returns
  -- the text with which the first child of the name begins, or NULL.
  pub iks_find_cdata-text_in :
      (fuel bound x : ℕ) (parent prev next : Ptr) (own : Bytes) (atts : List Att) (kids : Forest)
      → siblings kids ≤ fuel
      → Element h.node bound s x parent prev next own atts kids
      → iks_find_cdata fuel (some x) name h ≡ ok (text_in name kids) h
  unfolding iks_find_cdata iks_find load_tag load
  iks_find_cdata-text_in fuel bound x parent prev next own atts kids le e =
      rw (iks_find_cdata, iks_find, load_tag, load, e.here)
        (seek-text_in fuel (some x) none kids le e.below)
