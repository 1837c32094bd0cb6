-- ===== src/Iks/Write/Fold.antt =====
-- What the loop of `iks_string` in src/iks.c makes of a tree, the fuel for it, and its attributes.
use iksemel.Base.{
  ℕ, zero, suc, ◌+◌, ◌≤◌, true, some, List, [], ◌∷◌, Bytes, length, ◌≡◌, refl, arith,
}
use iksemel.Iks.Heap.{Ptr, Heap, ok, load}
use iksemel.Iks.Write.{Pass, Round, again, closing, walk_attribs}
use iksemel.Iks.Tree.{Att, Forest, empty, element, text, if_empty, first_att, HoldsAtts}

-- the fuel that the loop takes for a forest so that `f` is left
unfoldable pub spend : Forest → ℕ → ℕ
spend empty f = f
spend (text at s rest) f = suc (spend rest f)
spend (element at name atts kids rest) f =
    if_empty kids (suc (spend rest f)) (suc (spend kids (suc (spend rest f))))

-- the largest number of attributes of a node
unfoldable pub width : Forest → ℕ
width empty = 0
width (text at s rest) = width rest
width (element at name atts kids rest) = length atts + width kids + width rest

module _ {S : Type 0} (p : Pass S) where
  unfoldable pub pass_atts : List Att → S → S
  pass_atts [] acc = acc
  pass_atts (a ∷ atts) acc = pass_atts atts (p.attribute acc a.name a.value)

  -- what a pass makes of a forest
  unfoldable pub pass_forest : Forest → S → S
  unfolding pass_atts
  pass_forest empty acc = acc
  pass_forest (text at s rest) acc = pass_forest rest (p.text acc s)
  pass_forest (element at name atts kids rest) acc =
      let inside = pass_atts atts (p.start acc name) in
      pass_forest rest
        (if_empty kids (p.single_end inside) (p.close (pass_forest kids (p.open_end inside)) name))

  -- the children of `parent`, which is called `name`, are next
  abbrev pub enter : ℕ → Forest → Ptr → Bytes → S → Round S
  enter l empty parent name acc = closing l parent (p.close acc name)
  enter l (text at s rest) parent name acc = again (suc l) true (some at) acc
  enter l (element at n atts kids rest) parent name acc = again (suc l) true (some at) acc

  pub walk_attribs-pass_atts :
      (fuel : ℕ) (h : Heap) (s : ℕ) (parent prev : Ptr) (atts : List Att) (acc : S)
      → length atts ≤ fuel
      → HoldsAtts h.node s parent prev atts
      → walk_attribs p fuel (first_att atts) acc h ≡ ok (pass_atts atts acc) h
  unfolding walk_attribs pass_atts load
  walk_attribs-pass_atts fuel h s parent prev [] acc le held = refl
  walk_attribs-pass_atts zero h s parent prev (a ∷ atts) acc le held = absurd (omega arith)
  walk_attribs-pass_atts (suc fuel) h s parent prev (a ∷ atts) acc le (here, _, _, held) =
      rw (walk_attribs, load, here)
        (walk_attribs-pass_atts fuel h s parent (some a.at) atts _ (omega arith) held)

pub spend_lem : (t : Forest) (f : ℕ) → spend t f ≡ spend t 0 + f
unfolding spend
spend_lem empty f = omega arith
spend_lem (text at s rest) f = omega (arith, spend_lem rest f)
spend_lem (element at name atts empty rest) f = omega (arith, spend_lem rest f)
spend_lem (element at name atts (text a c k) rest) f = omega (
  arith,
  spend_lem rest f,
  spend_lem (text a c k) (suc (spend rest f)),
  spend_lem (text a c k) (suc (spend rest 0)),
)
spend_lem (element at name atts (element a n l j k) rest) f = omega (
  arith,
  spend_lem rest f,
  spend_lem (element a n l j k) (suc (spend rest f)),
  spend_lem (element a n l j k) (suc (spend rest 0)),
)
