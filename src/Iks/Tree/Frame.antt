-- ===== src/Iks/Tree/Frame.antt =====
-- Nodes that hold a tree, when some of them change: conditions on their addresses, and the trees
-- that the changed nodes hold.
use iksemel.Base.{ℕ, Option, none, some, List, [], ◌∷◌, ◌≡◌, refl, ◌∙◌}
use iksemel.Iks.Heap.{Ptr, Node}
use iksemel.Iks.Tree.{
  Att, Forest, empty, element, text, if_empty, head_or, head, last_from, HoldsAtts, HoldsTo,
  element_node, text_node,
}

abbrev pub EachAtt : (ℕ → Type 0) → List Att → Type 0
EachAtt P [] = Unit
EachAtt P (a ∷ atts) = P a.at × EachAtt P atts

-- every address of the forest
abbrev pub Each : (ℕ → Type 0) → Forest → Type 0
Each P empty = Unit
Each P (text at s rest) = P at × Each P rest
Each P (element at name atts kids rest) = P at × EachAtt P atts × Each P kids × Each P rest

-- `Q` at the last one of the siblings, and `P` at every other address
abbrev pub Ends : (ℕ → Type 0) → (ℕ → Type 0) → Forest → Type 0
Ends P Q empty = Unit
Ends P Q (text at s rest) = if_empty rest (Q at) (P at) × Ends P Q rest
Ends P Q (element at name atts kids rest) =
    if_empty rest (Q at) (P at) × EachAtt P atts × Each P kids × Ends P Q rest

module _ {P P' : ℕ → Type 0} (f : (a : ℕ) → P a → P' a) where
  pub EachAtt-map : (atts : List Att) → EachAtt P atts → EachAtt P' atts
  EachAtt-map [] e = tt
  EachAtt-map (a ∷ atts) (here, e) = (f a.at here, EachAtt-map atts e)

  pub Each-map : (t : Forest) → Each P t → Each P' t
  Each-map empty e = tt
  Each-map (text at s rest) (here, e) = (f at here, Each-map rest e)
  Each-map (element at name atts kids rest) (here, own, below, e) =
      (f at here, EachAtt-map atts own, Each-map kids below, Each-map rest e)

  module _ {Q Q' : ℕ → Type 0} (g : (a : ℕ) → Q a → Q' a) where
    end-map : (t : Forest) (a : ℕ) → if_empty t (Q a) (P a) → if_empty t (Q' a) (P' a)
    end-map empty a e = g a e
    end-map (text at s rest) a e = f a e
    end-map (element at name atts kids rest) a e = f a e

    pub Ends-map : (t : Forest) → Ends P Q t → Ends P' Q' t
    Ends-map empty e = tt
    Ends-map (text at s rest) (here, e) = (end-map rest at here, Ends-map rest e)
    Ends-map (element at name atts kids rest) (here, own, below, e) =
        (end-map rest at here, EachAtt-map atts own, Each-map kids below, Ends-map rest e)

module _ (m m' : ℕ → Option Node) (s : ℕ) where
  abbrev pub Kept : ℕ → Type 0
  Kept a = m' a ≡ m a

  -- the node gets `y` for its next one
  abbrev pub NextSet : Ptr → ℕ → Type 0
  NextSet y a = (n : Node) → m a ≡ some n → m' a ≡ some (record n { next = y })

  pub HoldsAtts-Kept :
      (parent prev : Ptr) (atts : List Att)
      → EachAtt Kept atts
      → HoldsAtts m s parent prev atts
      → HoldsAtts m' s parent prev atts
  HoldsAtts-Kept parent prev [] k held = tt
  HoldsAtts-Kept parent prev (a ∷ atts) (same, k) (here, name, value, held) =
      (same ∙ here, name, value, HoldsAtts-Kept parent (some a.at) atts k held)

  pub HoldsTo-Kept :
      (parent prev end : Ptr) (t : Forest)
      → Each Kept t
      → HoldsTo m s parent prev end t
      → HoldsTo m' s parent prev end t
  HoldsTo-Kept parent prev end empty k held = tt
  HoldsTo-Kept parent prev end (text at c rest) (same, k) (here, held) =
      (same ∙ here, HoldsTo-Kept parent (some at) end rest k held)
  HoldsTo-Kept parent prev end (element at n atts kids rest) (same, l, i, k)
        (here, is, own, below, held) =
      (
        same ∙ here,
        is,
        HoldsAtts-Kept (some at) none atts l own,
        HoldsTo-Kept (some at) none none kids i below,
        HoldsTo-Kept parent (some at) end rest k held,
      )

  linked :
      (node : Ptr → Node) (y : Ptr) (a : ℕ) (rest : Forest)
      → ((q : Ptr) → record (node q) { next = y } ≡ node y)
      → if_empty rest (NextSet y a) (Kept a)
      → m a ≡ some (node (head rest))
      → m' a ≡ some (node (head_or y rest))
  linked node y a empty e k here = rw (← e none) (k (node none) here)
  linked node y a (text at c rest) e k here = k ∙ here
  linked node y a (element at n atts kids rest) e k here = k ∙ here

  -- The last sibling gets `y` for its next one, and all else stays as it is.
  pub HoldsTo-NextSet :
      (parent prev y : Ptr) (t : Forest)
      → Ends Kept (NextSet y) t
      → HoldsTo m s parent prev none t
      → HoldsTo m' s parent prev y t
  HoldsTo-NextSet parent prev y empty k held = tt
  HoldsTo-NextSet parent prev y (text at c rest) (end, k) (here, held) = (
    linked (λ q. text_node s parent prev q c) y at rest (λ q. refl) end here,
    HoldsTo-NextSet parent (some at) y rest k held,
  )
  HoldsTo-NextSet parent prev y (element at n atts kids rest) (end, l, i, k)
        (here, is, own, below, held) =
      (
        linked (λ q. element_node s parent prev q n atts kids) y at rest (λ q. refl) end here,
        is,
        HoldsAtts-Kept (some at) none atts l own,
        HoldsTo-Kept (some at) none none kids i below,
        HoldsTo-NextSet parent (some at) y rest k held,
      )

-- more siblings behind the last one
abbrev pub append : Forest → Forest → Forest
append empty u = u
append (text at s rest) u = text at s (append rest u)
append (element at name atts kids rest) u = element at name atts kids (append rest u)

pub head_or-append :
    (end : Ptr) (t u : Forest) → head_or end (append t u) ≡ head_or (head_or end u) t
head_or-append end empty u = refl
head_or-append end (text at s rest) u = refl
head_or-append end (element at name atts kids rest) u = refl

pub last_from-append :
    (p : Ptr) (t u : Forest) → last_from p (append t u) ≡ last_from (last_from p t) u
last_from-append p empty u = refl
last_from-append p (text at s rest) u = last_from-append (some at) rest u
last_from-append p (element at name atts kids rest) u = last_from-append (some at) rest u

pub HoldsTo-append :
    (m : ℕ → Option Node) (s : ℕ) (parent prev end : Ptr) (t u : Forest)
    → HoldsTo m s parent prev (head_or end u) t
    → HoldsTo m s parent (last_from prev t) end u
    → HoldsTo m s parent prev end (append t u)
HoldsTo-append m s parent prev end empty u held more = more
HoldsTo-append m s parent prev end (text at c rest) u (here, held) more =
    (rw (head_or-append end rest u) here, HoldsTo-append m s parent (some at) end rest u held more)
HoldsTo-append m s parent prev end (element at n atts kids rest) u (here, is, own, below, held)
      more =
    (
      rw (head_or-append end rest u) here,
      is,
      own,
      below,
      HoldsTo-append m s parent (some at) end rest u held more,
    )
