-- ===== src/Iks/Write/Print.antt =====
-- `iks_string` of src/iks.c on nodes that hold a tree, against the text of the tree.
use iksemel.Base.{
  ℕ, ◌+◌, ◌-◌, ◌≤◌, true, Option, none, some, List, [], ◌∷◌, ◌++◌, Bytes, codes, take, strlen, ◌≡◌,
  refl, sym, ◌∙◌, ap, take_all, append-nil, append_assoc, arith,
}
use iksemel.Utility.Escape.{escape_bytes}
use iksemel.Iks.Heap.{Ptr, Heap, ok}
use iksemel.Iks.Write.{writes, again, walk, iks_string}
use iksemel.Iks.Write.Escape.{my_strcat, escape}
use iksemel.Iks.Write.Escaped.{escape_lem}
use iksemel.Iks.Write.Fits.{answered, iks_string-written}
use iksemel.Iks.Write.Fold.{spend, width, spend_lem, pass_atts, pass_forest}
use iksemel.Iks.Write.Tree.{walk-element}
use iksemel.Iks.Tree.{
  Att, Forest, empty, element, text, if_empty, IsText, print, print_atts, HoldsAtts, Holds,
  element_node, AttTexts, Texts, HoldsAtts-AttTexts, Holds-Texts,
}

my_strcat_text : (t name : Bytes) → IsText name → my_strcat t name 0 ≡ t ++ name
unfolding my_strcat
my_strcat_text t name h = rw (h, take_all name)

escape_text : (t s : Bytes) → IsText s → escape t (take (strlen s) s) ≡ t ++ escape_bytes s
escape_text t s h = rw (h, take_all s, (escape_lem t s).0)

pass_atts-print_atts :
    (atts : List Att) (acc : Bytes)
    → AttTexts atts
    → pass_atts writes atts acc ≡ acc ++ print_atts atts
unfolding pass_atts print_atts
pass_atts-print_atts [] acc held = sym (append-nil acc)
pass_atts-print_atts (a ∷ atts) acc (name, value, held) =
    rw
      (
        pass_atts-print_atts atts (writes.attribute acc a.name a.value) held,
        my_strcat_text (acc ++ codes " ") a.name name,
        escape_text (((acc ++ codes " ") ++ a.name) ++ codes "='") a.value value,
      )
      (simp append_assoc)

if_empty-append :
    (t : Forest) (x a b c : Bytes) → c ≡ x ++ b → if_empty t (x ++ a) c ≡ x ++ if_empty t a b
if_empty-append empty x a b c e = refl
if_empty-append (element at n atts kids rest) x a b c e = e
if_empty-append (text at s rest) x a b c e = e

pass_forest-print : (t : Forest) (acc : Bytes) → Texts t → pass_forest writes t acc ≡ acc ++ print t
unfolding pass_forest print
pass_forest-print empty acc held = sym (append-nil acc)
pass_forest-print (text at c rest) acc held =
    rw (pass_forest-print rest (escape acc c) held, (escape_lem acc c).0) (simp append_assoc)
pass_forest-print (element at n atts kids rest) acc (name, own, below, held) =
    let opened = acc ++ (codes "<" ++ (n ++ print_atts atts)) in
    let inside : pass_atts writes atts (writes.start acc n) ≡ opened =
      rw
        (
          pass_atts-print_atts atts (writes.start acc n) own,
          my_strcat_text (acc ++ codes "<") n name,
        )
        (simp append_assoc) in
    let close = print kids ++ (codes "</" ++ (n ++ codes ">")) in
    let closed : writes.close (pass_forest writes kids (opened ++ codes ">")) n
        ≡ opened ++ (codes ">" ++ close) =
      rw
        (
          pass_forest-print kids (opened ++ codes ">") below,
          my_strcat_text (((opened ++ codes ">") ++ print kids) ++ codes "</") n name,
        )
        (simp append_assoc) in
    rw
      (
        inside,
        pass_forest-print rest _ held,
        if_empty-append kids opened (codes "/>") (codes ">" ++ close) _ closed,
      )
      (simp append_assoc)

-- fuel that is enough to write a forest
unfoldable pub fuel_for : Forest → ℕ
unfolding spend width
fuel_for t = spend t 0 + width t

-- Where the nodes at `at` and below hold an element, next to whatever it stands, and the fuel is
-- enough, `iks_string` ends, leaves the nodes as they are, and returns the text of the element,
-- or NULL where its request for memory is refused.
pub iks_string-print :
    (fuel : ℕ) (stack : Option ℕ) (h : Heap) (s at : ℕ) (parent prev next : Ptr) (name : Bytes)
    (atts : List Att) (kids : Forest)
    → fuel_for (element at name atts kids empty) ≤ fuel
    → h.node at ≡ some (element_node s parent prev next name atts kids)
    → IsText name
    → HoldsAtts h.node s (some at) none atts
    → Holds h.node s (some at) none kids
    → iks_string fuel stack (some at) h ≡ answered (print (element at name atts kids empty)) h
unfolding fuel_for
iks_string-print fuel stack h s at parent prev next name atts kids le here is own below =
    let t = element at name atts kids empty in
    let f = fuel - spend t 0 in
    let split : fuel ≡ spend t f = omega (arith, spend_lem t f) in
    let texts : Texts t = (
      is,
      HoldsAtts-AttTexts h.node s (some at) none atts own,
      Holds-Texts h.node s (some at) none kids below,
      tt,
    ) in
    let walked : walk writes fuel (again 0 true (some at) []) h ≡ ok (print t) h = rw split (
      walk-element writes h s f at parent prev next name atts kids [] (omega arith) here own below
      ∙ ap (λ b. ok b h) (pass_forest-print t [] texts)) in
    iks_string-written fuel stack at _ h here refl ∙ rw walked
