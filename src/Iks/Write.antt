-- ===== src/Iks/Write.antt =====
-- The text of a tree: `escape_size` to `iks_string` of src/iks.c.
pub mod Escape
pub mod Escaped
pub mod Passes
pub mod Fits
pub mod Fold
pub mod Tree
pub mod Print
pub mod Inserted
use iksemel.Base.{
  ℕ, zero, suc, ◌+◌, Bool, true, false, ◌==◌, leb, if◌then◌else◌, Option, none, some, [], ◌∷◌, ◌++◌,
  Bytes, codes, length, take, strlen,
}
use iksemel.Iks.Heap.{
  Ptr, Node, Cmd, Run, pure, crash, starve, and_then, ◌>>=◌, if_null, non_null, load, load_tag,
  as_tag, as_attrib, as_cdata, request, new_string, dup,
}
use iksemel.Iks.Create.{is_tag, is_cdata}
use iksemel.Iks.Write.Escape.{my_strcat, escape_size, escape}

-- `iks_string` goes through the tree twice, first to count bytes and then to write them: what
-- the two loops do at the same places
pub record Pass (S : Type 0) : Type 0 where
  pub start : S → Bytes → S
  pub attribute : S → Bytes → Bytes → S
  pub open_end : S → S
  pub single_end : S → S
  pub text : S → Bytes → S
  pub close : S → Bytes → S

-- `size`
abbrev pub sizes : Pass ℕ
sizes = record {
  start = λ size name. size + 1 + strlen name;
  attribute =
      λ size name value. size + (4 + strlen name + escape_size 0 (take (strlen value) value));
  open_end = λ size. size + 1;
  single_end = λ size. size + 2;
  text = λ size chars. size + escape_size 0 chars;
  close = λ size name. size + (3 + strlen name);
}

-- the bytes between `ret` and `t`
abbrev pub writes : Pass Bytes
writes = record {
  start = λ t name. my_strcat (t ++ codes "<") name 0;
  attribute = λ t name value.
      escape (my_strcat (t ++ codes " ") name 0 ++ codes "='") (take (strlen value) value)
      ++ codes "'";
  open_end = λ t. t ++ codes ">";
  single_end = λ t. t ++ codes "/>";
  text = escape;
  close = λ t name. my_strcat (t ++ codes "</") name 0 ++ codes ">";
}

-- the first `len` bytes of a text
abbrev pub chars : Option Bytes → ℕ → Cmd Bytes
chars none zero = pure []
chars none (suc len) = crash
chars (some c) len = if leb len (length c) then pure (take len c) else crash

-- what a round of the loop leads to: its end, or `level`, whether `dir == 0`, and the next node
pub data Round (S : Type 0) : Type 0 where
  finished : S → Round S
  again : ℕ → Bool → Ptr → S → Round S

-- `if (level < 1) break;`, and on with the parent
abbrev pub closing : {S : Type 0} → ℕ → Ptr → S → Round S
closing zero parent acc = finished acc
closing (suc l) parent acc = again (suc l) false parent acc

module _ {S : Type 0} (pass : Pass S) where
  -- the attributes from `z` on
  unfoldable pub walk_attribs : ℕ → Ptr → S → Cmd S
  unfolding load
  walk_attribs fuel none acc = pure acc
  walk_attribs zero (some z) acc = starve
  walk_attribs (suc fuel) (some z) acc = do
    n ← load (some z)
    a ← as_attrib n.body
    name ← non_null a.0
    value ← non_null a.1
    walk_attribs fuel n.next (pass.attribute acc name value)

  -- `z` is the next node
  unfoldable pub to_next : ℕ → Node → ℕ → S → Cmd (Round S)
  to_next (suc l) n z acc = pure (again (suc l) true (some z) acc)
  to_next zero n z acc = do
    t ← as_tag n.body
    if_null t.children (pure (finished acc))
        λ _. do name ← non_null t.name; pure (finished (pass.close acc name))

  -- the end of the parent
  unfoldable pub to_parent : ℕ → Node → S → Cmd (Round S)
  unfolding load_tag
  to_parent zero n acc = pure (finished acc)
  to_parent (suc l) n acc = do
    t ← load_tag n.parent
    name ← non_null t.name
    pure (closing l n.parent (pass.close acc name))

  -- behind a node
  unfoldable pub behind : ℕ → Node → S → Cmd (Round S)
  unfolding to_next to_parent
  behind level n acc = if_null n.next (to_parent level n acc) λ z. to_next level n z acc

  -- a round of the loop where `dir == 0`
  unfoldable pub visit : ℕ → ℕ → Node → S → Cmd (Round S)
  unfolding walk_attribs behind
  visit fuel level n acc =
      if is_tag n.type
      then (do
        t ← as_tag n.body
        name ← non_null t.name
        inside ← walk_attribs fuel t.attribs (pass.start acc name)
        if_null t.children (behind level n (pass.single_end inside))
            λ c. pure (again (suc level) true (some c) (pass.open_end inside)))
      else (do d ← as_cdata n.body; text ← chars d.0 d.1; behind level n (pass.text acc text))

  unfoldable pub walk : ℕ → Round S → Cmd S
  unfolding load visit behind
  walk fuel (finished acc) = pure acc
  walk zero (again level down y acc) = starve
  walk (suc fuel) (again level down y acc) = do
    n ← load y
    next ← if down then visit fuel level n acc else behind level n acc
    walk fuel next

-- A missing stack stands for the use of `iks_malloc`. A write behind the buffer is a fault.
unfoldable pub iks_string : ℕ → Option ℕ → Ptr → Cmd (Option Bytes)
unfolding load request new_string walk
iks_string fuel s none = pure none
iks_string fuel s (some x) = do
  n ← load (some x)
  if is_cdata n.type
      then (do
        d ← as_cdata n.body
        if_null s
            (do
              r ← request
              if_null r crash
                  λ _. do c ← non_null d.0; copied ← chars (some c) d.1; pure (some copied))
            λ _. if_null d.0 (pure none) λ c. new_string c d.1)
      else (do
        size ← walk sizes fuel (again 0 true (some x) 0)
        r ← request
        if_null r (pure none) λ _. do
          text ← walk writes fuel (again 0 true (some x) [])
          if leb (length text) size then pure (some text) else crash)
