-- ===== src/Iks/Tree/LastText.antt =====
-- An element whose last child is text, when this text is another one.
use iksemel.Base.{ℕ, Option, none, some, List, Bytes, ◌≡◌, refl, ◌∙◌, ap}
use iksemel.Iks.Heap.{Ptr, Node}
use iksemel.Iks.Tree.{
  Att, Forest, empty, element, text, if_empty, head_or, last_from, HoldsTo, element_node, text_node,
}
use iksemel.Iks.Tree.Frame.{
  Each, Ends, Kept, HoldsAtts-Kept, HoldsTo-Kept, append, last_from-append,
}
use iksemel.Iks.Tree.Element.{last_or}

-- these siblings, and text behind them
abbrev pub with_text : Forest → ℕ → Bytes → Forest
with_text t l chars = append t (text l chars empty)

pub last_or-with_text : (x l : ℕ) (t : Forest) (chars : Bytes) → last_or x (with_text t l chars) ≡ l
last_or-with_text x l empty chars = refl
last_or-with_text x l (text a s rest) chars = last_or-with_text a l rest chars
last_or-with_text x l (element a n atts kids rest) chars = last_or-with_text a l rest chars

-- the next one of a sibling, whatever the text behind is
next-with_text :
    (l : ℕ) (end : Ptr) (t : Forest) (a b : Bytes)
    → head_or end (with_text t l a) ≡ head_or end (with_text t l b)
next-with_text l end empty a b = refl
next-with_text l end (text at s rest) a b = refl
next-with_text l end (element at n atts kids rest) a b = refl

-- the links of the element do not depend on the text
pub element_node-with_text :
    (s : ℕ) (parent prev next : Ptr) (own : Bytes) (atts : List Att) (l : ℕ) (t : Forest)
    (a b : Bytes)
    → element_node s parent prev next own atts (with_text t l a)
      ≡ element_node s parent prev next own atts (with_text t l b)
element_node-with_text s parent prev next own atts l t a b =
    rw
      (
        next-with_text l none t a b,
        last_from-append none t (text l a empty),
        last_from-append none t (text l b empty),
      )
      refl

module _ (P Q : ℕ → Type 0) (l : ℕ) where
  end-with_text :
      (t : Forest) (at : ℕ) (a b : Bytes)
      → if_empty (with_text t l a) (Q at) (P at)
      → if_empty (with_text t l b) (Q at) (P at)
  end-with_text empty at a b e = e
  end-with_text (text _ s rest) at a b e = e
  end-with_text (element _ n atts kids rest) at a b e = e

  before-with_text :
      (t : Forest) (at : ℕ) (a : Bytes) → if_empty (with_text t l a) (Q at) (P at) → P at
  before-with_text empty at a e = e
  before-with_text (text _ s rest) at a e = e
  before-with_text (element _ n atts kids rest) at a e = e

  pub Ends-with_text :
      (t : Forest) (a b : Bytes) → Ends P Q (with_text t l a) → Ends P Q (with_text t l b)
  Ends-with_text empty a b e = e
  Ends-with_text (text at s rest) a b (here, e) =
      (end-with_text rest at a b here, Ends-with_text rest a b e)
  Ends-with_text (element at n atts kids rest) a b (here, own, below, e) =
      (end-with_text rest at a b here, own, below, Ends-with_text rest a b e)

  pub Ends-before : (t : Forest) (a : Bytes) → Ends P Q (with_text t l a) → Each P t
  Ends-before empty a e = tt
  Ends-before (text at s rest) a (here, e) = (before-with_text rest at a here, Ends-before rest a e)
  Ends-before (element at n atts kids rest) a (here, own, below, e) =
      (before-with_text rest at a here, own, below, Ends-before rest a e)

  pub Ends-last : (t : Forest) (a : Bytes) → Ends P Q (with_text t l a) → Q l
  Ends-last empty a e = e.0
  Ends-last (text at s rest) a e = Ends-last rest a e.1
  Ends-last (element at n atts kids rest) a (_, _, _, e) = Ends-last rest a e

module _ (m m' : ℕ → Option Node) (s : ℕ) (parent : Ptr) (l : ℕ) (a b : Bytes) where
  pub HoldsTo-last :
      (prev : Ptr) (t : Forest)
      → HoldsTo m s parent prev none (with_text t l a)
      → m l ≡ some (text_node s parent (last_from prev t) none a)
  HoldsTo-last prev empty (here, held) = here
  HoldsTo-last prev (text at c rest) (here, held) = HoldsTo-last (some at) rest held
  HoldsTo-last prev (element at n atts kids rest) (here, is, own, below, held) =
      HoldsTo-last (some at) rest held

  pub HoldsTo-with_text :
      (prev : Ptr) (t : Forest)
      → Each (Kept m m' s) t
      → m' l ≡ some (text_node s parent (last_from prev t) none b)
      → HoldsTo m s parent prev none (with_text t l a)
      → HoldsTo m' s parent prev none (with_text t l b)
  HoldsTo-with_text prev empty k at_l (here, held) = (at_l, tt)
  HoldsTo-with_text prev (text at c rest) (same, k) at_l (here, held) = (
    same ∙ here ∙ ap (λ q. some (text_node s parent prev q c)) (next-with_text l none rest a b),
    HoldsTo-with_text (some at) rest k at_l held,
  )
  HoldsTo-with_text prev (element at n atts kids rest) (same, own', below', k) at_l
        (here, is, own, below, held) =
      (
        same
            ∙ here
            ∙ ap (λ q. some (element_node s parent prev q n atts kids))
                (next-with_text l none rest a b),
        is,
        HoldsAtts-Kept m m' s (some at) none atts own' own,
        HoldsTo-Kept m m' s (some at) none none kids below' below,
        HoldsTo-with_text (some at) rest k at_l held,
      )
