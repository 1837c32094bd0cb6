-- ===== src/Iks/Tree/Element.antt =====
-- An element with its attributes and children in memory, so that its last child can be told from
-- the rest.
use iksemel.Base.{ℕ, suc, ◌<◌, Option, none, some, List, [], Bytes, ◌≡◌, ◌≢◌, refl, arith}
use iksemel.Iks.Heap.{Ptr, Node}
use iksemel.Iks.Tree.{
  Att, Forest, empty, element, text, if_empty, last_from, IsText, HoldsAtts, HoldsTo, Holds,
  element_node,
}
use iksemel.Iks.Tree.Frame.{EachAtt, Ends, EachAtt-map, Each-map, append}

-- the last child of the node at `x`, or the node itself
abbrev pub last_or : ℕ → Forest → ℕ
last_or x empty = x
last_or x (text at s rest) = last_or at rest
last_or x (element at name atts kids rest) = last_or at rest

-- another address than these two, below `bound`
abbrev pub Clear : ℕ → ℕ → ℕ → ℕ → Type 0
Clear bound x l a = (a ≢ x) × (a ≢ l) × (a < bound)

abbrev pub IsLast : ℕ → ℕ → ℕ → ℕ → Type 0
IsLast bound x l a = (a ≡ l) × (a ≢ x) × (a < bound)

-- The nodes `m`, whose addresses lie below `bound`, hold this element of the stack `s` at `x`; no
-- other node of it stands there, or at the place of its last child.
pub record Element (m : ℕ → Option Node) (bound s x : ℕ) (parent prev next : Ptr) (name : Bytes)
    (atts : List Att) (kids : Forest) : Type 0 where
  pub here : m x ≡ some (element_node s parent prev next name atts kids)
  pub named : IsText name
  pub own : HoldsAtts m s (some x) none atts
  pub below : Holds m s (some x) none kids
  pub under : x < bound
  pub clear : EachAtt (Clear bound x (last_or x kids)) atts
  pub ends : Ends (Clear bound x (last_or x kids)) (IsLast bound x (last_or x kids)) kids

-- there is a node, unless the pointer is NULL
abbrev pub Found : (ℕ → Option Node) → Ptr → Type 0
Found m none = Unit
Found m (some l) = (n : Node) × (m l ≡ some n)

pub HoldsTo-Found :
    (m : ℕ → Option Node) (s : ℕ) (parent prev end p : Ptr) (t : Forest)
    → Found m p
    → HoldsTo m s parent prev end t
    → Found m (last_from p t)
HoldsTo-Found m s parent prev end p empty found held = found
HoldsTo-Found m s parent prev end p (text at c rest) found (here, held) =
    HoldsTo-Found m s parent (some at) end (some at) rest (_, here) held
HoldsTo-Found m s parent prev end p (element at n atts kids rest) found (here, _, _, _, held) =
    HoldsTo-Found m s parent (some at) end (some at) rest (_, here) held

pub last_from-last_or : (x : ℕ) (t : Forest) → last_from (some x) t ≡ some (last_or x t)
last_from-last_or x empty = refl
last_from-last_or x (text at s rest) = last_from-last_or at rest
last_from-last_or x (element at name atts kids rest) = last_from-last_or at rest

pub last_or-append :
    (x at : ℕ) (name : Bytes) (t : Forest)
    → last_or x (append t (element at name [] empty empty)) ≡ at
last_or-append x at name empty = refl
last_or-append x at name (text a s rest) = last_or-append a at name rest
last_or-append x at name (element a n atts kids rest) = last_or-append a at name rest

Clear-later : (bound x l a : ℕ) → Clear bound x l a → Clear (suc (suc bound)) x bound a
Clear-later bound x l a (ne, _, lt) = (ne, ground arith, omega arith)

Clear-behind :
    (bound x l a at : ℕ) (name : Bytes) (t : Forest)
    → if_empty t (IsLast bound x l a) (Clear bound x l a)
    → if_empty
        (append t (element at name [] empty empty))
        (IsLast (suc (suc bound)) x bound a)
        (Clear (suc (suc bound)) x bound a)
Clear-behind bound x l a at name empty (_, ne, lt) = (ne, ground arith, omega arith)
Clear-behind bound x l a at name (text b s rest) c = Clear-later bound x l a c
Clear-behind bound x l a at name (element b n atts kids rest) c = Clear-later bound x l a c

-- Behind all children, at a fresh address, the last one is clear of the others.
pub Ends-append :
    (bound x l : ℕ) (name : Bytes) (t : Forest)
    → x < bound
    → Ends (Clear bound x l) (IsLast bound x l) t
    → Ends
        (Clear (suc (suc bound)) x bound)
        (IsLast (suc (suc bound)) x bound)
        (append t (element bound name [] empty empty))
Ends-append bound x l name empty h e = ((refl, ground arith, omega arith), tt, tt, tt)
Ends-append bound x l name (text at s rest) h (here, e) =
    (Clear-behind bound x l at bound name rest here, Ends-append bound x l name rest h e)
Ends-append bound x l name (element at n atts kids rest) h (here, own, below, e) = (
  Clear-behind bound x l at bound name rest here,
  EachAtt-map (Clear-later bound x l) atts own,
  Each-map (Clear-later bound x l) kids below,
  Ends-append bound x l name rest h e,
)

pub EachAtt-Clear :
    (bound x l : ℕ) (atts : List Att)
    → EachAtt (Clear bound x l) atts
    → EachAtt (Clear (suc (suc bound)) x bound) atts
EachAtt-Clear bound x l atts e = EachAtt-map (Clear-later bound x l) atts e

-- the last sibling behind `a`
pub last_or-Ends :
    (P Q : ℕ → Type 0) (t : Forest) (a : ℕ) → if_empty t (Q a) (P a) → Ends P Q t → Q (last_or a t)
last_or-Ends P Q empty a here e = here
last_or-Ends P Q (text at s rest) a here (there, e) = last_or-Ends P Q rest at there e
last_or-Ends P Q (element at name atts kids rest) a here (there, _, _, e) =
    last_or-Ends P Q rest at there e
