-- ===== src/Iks/Tree.antt =====
-- What the nodes of src/iks.c stand for: elements and text in order. A forest holds the children of
-- a node: its first one, and the rest behind it. Each node comes with its address.
pub mod Frame
pub mod Element
pub mod LastText
use iksemel.Base.{ℕ, Option, none, some, List, [], ◌∷◌, ◌++◌, Bytes, codes, length, strlen, ◌≡◌}
use iksemel.Utility.Escape.{escape_bytes}
use iksemel.Iks.Heap.{Ptr, iks_tag, iks_attribute, iks_cdata, tag, cdata, attrib, Node}

-- an attribute
pub record Att : Type 0 where
  pub at : ℕ
  pub name : Bytes
  pub value : Bytes

pub data Forest : Type 0 where
  empty : Forest
  element : ℕ → Bytes → List Att → Forest → Forest → Forest
  text : ℕ → Bytes → Forest → Forest

abbrev pub if_empty {ℓ} : {A : Type ℓ} → Forest → A → A → A
if_empty empty a b = a
if_empty (element at name atts kids rest) a b = b
if_empty (text at s rest) a b = b

-- the address of the first node, or `end` if there is none
abbrev pub head_or : Ptr → Forest → Ptr
head_or end empty = end
head_or end (element at name atts kids rest) = some at
head_or end (text at s rest) = some at

abbrev pub head : Forest → Ptr
head t = head_or none t

-- the address of the last node, or `p` if there is none
abbrev pub last_from : Ptr → Forest → Ptr
last_from p empty = p
last_from p (element at name atts kids rest) = last_from (some at) rest
last_from p (text at s rest) = last_from (some at) rest

abbrev pub first_att : List Att → Ptr
first_att [] = none
first_att (a ∷ atts) = some a.at

abbrev pub last_att_from : Ptr → List Att → Ptr
last_att_from p [] = p
last_att_from p (a ∷ atts) = last_att_from (some a.at) atts

-- the text of a document
unfoldable pub print_atts : List Att → Bytes
print_atts [] = []
print_atts (a ∷ atts) =
    codes " "
    ++ (a.name ++ (codes "='" ++ (escape_bytes a.value ++ (codes "'" ++ print_atts atts))))

unfoldable pub print : Forest → Bytes
unfolding print_atts
print empty = []
print (text at s rest) = escape_bytes s ++ print rest
print (element at name atts kids rest) =
    codes "<"
    ++ (name
        ++ (print_atts atts
            ++ (if_empty kids (codes "/>")
                  (codes ">" ++ (print kids ++ (codes "</" ++ (name ++ codes ">"))))
                ++ print rest)))

-- a string that its NUL ends
abbrev pub IsText : Bytes → Type 0
IsText s = strlen s ≡ length s

-- the node of an element
abbrev pub element_node : ℕ → Ptr → Ptr → Ptr → Bytes → List Att → Forest → Node
element_node s parent prev next name atts kids = record {
  next = next;
  prev = prev;
  parent = parent;
  type = iks_tag;
  s = s;
  body = tag (record {
    children = head kids;
    last_child = last_from none kids;
    attribs = first_att atts;
    last_attrib = last_att_from none atts;
    name = some name;
  });
}

abbrev pub text_node : ℕ → Ptr → Ptr → Ptr → Bytes → Node
text_node s parent prev next chars = record {
  next = next;
  prev = prev;
  parent = parent;
  type = iks_cdata;
  s = s;
  body = cdata (some chars) (length chars);
}

abbrev pub att_node : ℕ → Ptr → Ptr → Ptr → Att → Node
att_node s parent prev next a = record {
  next = next;
  prev = prev;
  parent = parent;
  type = iks_attribute;
  s = s;
  body = attrib (some a.name) (some a.value);
}

-- The nodes `m` of the stack `s` hold these attributes of `parent`, where `prev` is the one before.
abbrev pub HoldsAtts : (ℕ → Option Node) → ℕ → Ptr → Ptr → List Att → Type 0
HoldsAtts m s parent prev [] = Unit
HoldsAtts m s parent prev (a ∷ atts) =
    (m a.at ≡ some (att_node s parent prev (first_att atts) a))
    × IsText a.name
    × IsText a.value
    × HoldsAtts m s parent (some a.at) atts

-- The nodes `m` hold these children of `parent`, where `prev` is the node before and `end` the one
-- behind.
abbrev pub HoldsTo : (ℕ → Option Node) → ℕ → Ptr → Ptr → Ptr → Forest → Type 0
HoldsTo m s parent prev end empty = Unit
HoldsTo m s parent prev end (text at chars rest) =
    (m at ≡ some (text_node s parent prev (head_or end rest) chars))
    × HoldsTo m s parent (some at) end rest
HoldsTo m s parent prev end (element at name atts kids rest) =
    (m at ≡ some (element_node s parent prev (head_or end rest) name atts kids))
    × IsText name
    × HoldsAtts m s (some at) none atts
    × HoldsTo m s (some at) none none kids
    × HoldsTo m s parent (some at) end rest

-- these are the last children
abbrev pub Holds : (ℕ → Option Node) → ℕ → Ptr → Ptr → Forest → Type 0
Holds m s parent prev t = HoldsTo m s parent prev none t

-- all names and values are strings that their NUL ends
abbrev pub AttTexts : List Att → Type 0
AttTexts [] = Unit
AttTexts (a ∷ atts) = IsText a.name × IsText a.value × AttTexts atts

abbrev pub Texts : Forest → Type 0
Texts empty = Unit
Texts (text at chars rest) = Texts rest
Texts (element at name atts kids rest) = IsText name × AttTexts atts × Texts kids × Texts rest

pub HoldsAtts-AttTexts :
    (m : ℕ → Option Node) (s : ℕ) (parent prev : Ptr) (atts : List Att)
    → HoldsAtts m s parent prev atts
    → AttTexts atts
HoldsAtts-AttTexts m s parent prev [] held = tt
HoldsAtts-AttTexts m s parent prev (a ∷ atts) (_, name, value, held) =
    (name, value, HoldsAtts-AttTexts m s parent (some a.at) atts held)

pub Holds-Texts :
    (m : ℕ → Option Node) (s : ℕ) (parent prev : Ptr) (t : Forest)
    → Holds m s parent prev t
    → Texts t
Holds-Texts m s parent prev empty held = tt
Holds-Texts m s parent prev (text at chars rest) (_, held) =
    Holds-Texts m s parent (some at) rest held
Holds-Texts m s parent prev (element at name atts kids rest) (_, is, own, below, held) = (
  is,
  HoldsAtts-AttTexts m s (some at) none atts own,
  Holds-Texts m s (some at) none kids below,
  Holds-Texts m s parent (some at) rest held,
)
