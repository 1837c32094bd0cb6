-- ===== src/Sax/Valid.antt =====
-- The invariant of the parser between two rounds of `sax_core`: the token stack and the attribute
-- array are within their sizes, and every pointer that a hook will be given leads to a C string.
mod Strings
pub use Strings.*
use Strings.{Term, AllTerm, Ended, Term-append, AllTerm-append}
use iksemel.Base.{
  ℕ, zero, suc, ◌+◌, ◌*◌, ◌^◌, bit_and, ◌≤◌, ◌<◌, ◌≡◌, ◌≢◌, ◌⊎◌, inl, inr, ◌++◌, arith,
  length-append, Option, none, some, List, [], ◌∷◌, Bytes, length, get_elem?,
}
use iksemel.Sax.Types.{
  Context, c_cdata, c_tag_start, c_tag, c_tag_end, c_attribute, c_attribute_1, c_attribute_2,
  c_value, c_value_apos, c_value_quot, c_whitespace, c_entity, Parser, Locals,
}

-- a plain byte that does not end the tag is looked at again
abbrev pub NotEnd : Option ℕ → ℕ → Type 0
NotEnd none uni = ⊥
NotEnd (some c) uni = (c ≢ b'/') × (c ≢ b'>') × (uni ≡ 0) × (bit_and c 0x80 ≡ 0)

module _ {U : Type 0} where
  abbrev pub Named : Parser U → Type 0
  Named p = (o : ℕ) × (p.tag_name ≡ some o) × Term p.stack o

  -- the name is being read
  abbrev pub Naming : Parser U → Type 0
  Naming p = (o : ℕ) × (p.tag_name ≡ some o) × (o ≤ length p.stack) × (p.attcur ≡ 0)

  -- the attributes so far are complete
  abbrev pub Attrs : Parser U → Type 0
  Attrs p = Named p × AllTerm p.stack p.attcur p.atts

  -- place `i` of the array points into the stack
  abbrev pub Slot : Parser U → ℕ → Type 0
  Slot p i = (o : ℕ) × (get_elem? p.atts i ≡ some (some o)) × (o ≤ length p.stack)

  -- what `C_TAG_END` hands to the hook can be read
  abbrev pub Readable : Parser U → Type 0
  Readable p = Named p × ((p.attcur ≡ 0) ⊎ Ended p.stack p.attcur p.atts)

  -- the contexts that blanks lead back to
  abbrev pub Resumes : Context → Parser U → Type 0
  Resumes c_tag_end p = Readable p
  Resumes c_attribute p = Attrs p × (p.attcur ≡ 0)
  Resumes c_attribute_1 p = Attrs p × Slot p p.attcur × (p.attcur + 2 < length p.atts)
  Resumes c_attribute_2 p = Attrs p × (p.attcur < length p.atts)
  Resumes _ p = ⊥

  -- what each context knows; `held` is the byte that is looked at again
  abbrev pub InvAt : Option ℕ → Context → Parser U → Type 0
  InvAt held c_cdata p = p.attcur ≡ 0
  InvAt held c_tag_start p = Naming p
  InvAt held c_tag p = Naming p
  InvAt held c_tag_end p = Readable p
  InvAt held c_attribute p = Attrs p × ((p.attcur ≡ 0) ⊎ NotEnd held p.uni_max)
  InvAt held c_attribute_1 p = Attrs p × Slot p p.attcur × (p.attcur + 2 < length p.atts)
  InvAt held c_attribute_2 p = Attrs p × (p.attcur < length p.atts)
  InvAt held c_value p =
      Named p × AllTerm p.stack (suc p.attcur) p.atts × (p.attcur + 2 < length p.atts)
  InvAt held c_value_apos p =
      Named p
      × AllTerm p.stack (suc p.attcur) p.atts
      × Slot p (suc p.attcur)
      × (p.attcur + 2 < length p.atts)
  InvAt held c_value_quot p =
      Named p
      × AllTerm p.stack (suc p.attcur) p.atts
      × Slot p (suc p.attcur)
      × (p.attcur + 2 < length p.atts)
  InvAt held c_whitespace p = Resumes p.oldcontext p
  InvAt held c_entity p = (length p.entity ≤ 7) × (p.attcur ≡ 0)
  InvAt held _ p = p.attcur ≡ 0

  pub record Sound (held : Option ℕ) (p : Parser U) : Type 0 where
    pub room : length p.stack ≤ p.stack_max
    pub size : length p.atts ≡ p.attmax * 2
    pub at : InvAt held p.context p

  -- the invariant between two calls
  pub record IsValid (p : Parser U) : Type 0 where
    pub sound : Sound none p
    pub bytes : p.nr_bytes < 2 ^ 64
    pub lines : p.nr_lines < 2 ^ 64

-- the pending piece of a token starts at or before the byte
abbrev pub PendingAt : ℕ → Option ℕ → Type 0
PendingAt pos none = Unit {0}
PendingAt pos (some i) = i ≤ pos

-- how often a byte may be looked at again
abbrev pub rank : Context → ℕ
rank c_tag_end = 0
rank c_attribute_2 = 2
rank c_whitespace = 3
rank _ = 1

module _ {U : Type 0} (p : Parser U) (t : Bytes) (m : ℕ) where
  abbrev longer : Parser U
  longer = record p { stack = p.stack ++ t; stack_max = m }

  Named-longer : Named p → Named longer
  Named-longer (o, e, h) = (o, e, Term-append p.stack t o h)

  Attrs-longer : Attrs p → Attrs longer
  Attrs-longer (n, h) = (Named-longer n, AllTerm-append p.stack t p.attcur p.atts h)

  Naming-longer : Naming p → Naming longer
  Naming-longer (o, e, le, z) = (o, e, omega (arith, length-append p.stack t), z)

  Slot-longer : (i : ℕ) → Slot p i → Slot longer i
  Slot-longer i (o, e, le) = (o, e, omega (arith, length-append p.stack t))

  Ended-longer : (n : ℕ) (os : List (Option ℕ)) → Ended p.stack n os → Ended (p.stack ++ t) n os
  Ended-longer n [] h = h
  Ended-longer zero (none ∷ os) h = h
  Ended-longer zero (some o ∷ os) h = h
  Ended-longer (suc n) (none ∷ os) h = h
  Ended-longer (suc n) (some o ∷ os) (a, h) = (Term-append p.stack t o a, Ended-longer n os h)

  Readable-longer : Readable p → Readable longer
  Readable-longer (n, h) =
      (Named-longer n, elim h [ inl z ↦ inl z | inr e ↦ inr (Ended-longer p.attcur p.atts e) ])

  Resumes-longer : (ctx : Context) → Resumes ctx p → Resumes ctx longer
  Resumes-longer c_tag_end h = Readable-longer h
  Resumes-longer c_attribute (a, z) = (Attrs-longer a, z)
  Resumes-longer c_attribute_1 (a, s, lt) = (Attrs-longer a, Slot-longer p.attcur s, lt)
  Resumes-longer c_attribute_2 (a, lt) = (Attrs-longer a, lt)
  Resumes-longer _ h = absurd h

  -- Bytes above the stack that no pointer needs do no harm.
  pub InvAt-longer : (held : Option ℕ) (ctx : Context) → InvAt held ctx p → InvAt held ctx longer
  InvAt-longer held c_tag_start h = Naming-longer h
  InvAt-longer held c_tag h = Naming-longer h
  InvAt-longer held c_tag_end h = Readable-longer h
  InvAt-longer held c_attribute (a, z) = (Attrs-longer a, z)
  InvAt-longer held c_attribute_1 (a, s, lt) = (Attrs-longer a, Slot-longer p.attcur s, lt)
  InvAt-longer held c_attribute_2 (a, lt) = (Attrs-longer a, lt)
  InvAt-longer held c_value (n, a, lt) =
      (Named-longer n, AllTerm-append p.stack t (suc p.attcur) p.atts a, lt)
  InvAt-longer held c_value_apos (n, a, s, lt) = (
    Named-longer n,
    AllTerm-append p.stack t (suc p.attcur) p.atts a,
    Slot-longer (suc p.attcur) s,
    lt,
  )
  InvAt-longer held c_value_quot (n, a, s, lt) = (
    Named-longer n,
    AllTerm-append p.stack t (suc p.attcur) p.atts a,
    Slot-longer (suc p.attcur) s,
    lt,
  )
  InvAt-longer held c_whitespace h = Resumes-longer p.oldcontext h
  InvAt-longer held _ h = h
