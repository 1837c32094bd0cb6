-- ===== src/Iks/Copy.antt =====
-- `iks_copy_within` and `iks_copy` of src/iks.c.
use iksemel.Base.{ℕ, zero, suc, Bool, true, false, ◌==◌, if◌then◌else◌, Option, none, some, Bytes}
use iksemel.Iks.Heap.{
  Ptr, Node, Cmd, pure, crash, starve, ◌>>=◌, ◌>>◌, if_null, non_null, load, as_tag, as_attrib,
  as_cdata, request,
}
use iksemel.Iks.Create.{is_tag, iks_new_within, iks_insert, iks_insert_attrib, iks_insert_cdata}

-- Each attribute from `y` on is inserted into `cur`.
unfoldable pub copy_attribs : ℕ → Ptr → Ptr → Cmd (Unit {0})
unfolding load iks_insert_attrib
copy_attribs fuel cur none = pure tt
copy_attribs zero cur (some y) = starve
copy_attribs (suc fuel) cur (some y) = do
  n ← load (some y)
  a ← as_attrib n.body
  name ← non_null a.0
  iks_insert_attrib fuel cur name a.1
  copy_attribs fuel cur n.next

-- what a round of the loop leads to: its end with `copy`, or the next values of its variables
pub data CopyRound : Type 0 where
  copied : Ptr → CopyRound
  go_on : ℕ → Bool → Ptr → Ptr → Ptr → CopyRound

-- there is no next node
unfoldable pub up : ℕ → Node → Ptr → Ptr → Cmd CopyRound
unfolding load
up zero n copy cur = pure (copied copy)
up (suc zero) n copy cur = pure (copied copy)
up (suc (suc l)) n copy cur = do c ← load cur; pure (go_on (suc l) false n.parent copy c.parent)

-- behind a node: its next one, or its parent
unfoldable pub after_copy : ℕ → Node → Ptr → Ptr → Cmd CopyRound
unfolding up
after_copy level n copy cur =
    if_null n.next (up level n copy cur)
      λ z. pure (if level == 0 then copied copy else go_on level true (some z) copy cur)

-- a new node for one of this name: the first one is the copy of the whole tree
unfoldable pub copy_tag : ℕ → Option Bytes → Ptr → Ptr → Cmd Ptr
unfolding iks_new_within iks_insert
copy_tag s name none cur = iks_new_within name s
copy_tag s name (some c) cur = iks_insert cur name

abbrev pub first_made : Ptr → Ptr → Ptr
first_made none made = made
first_made (some c) made = some c

-- a round of the loop where `dir == 0`
unfoldable pub copy_node : ℕ → ℕ → ℕ → Node → Ptr → Ptr → Cmd CopyRound
unfolding load copy_tag copy_attribs iks_insert_cdata after_copy
copy_node fuel s level n copy cur =
    if is_tag n.type
    then (do
      t ← as_tag n.body
      made ← copy_tag s t.name copy cur
      copy_attribs fuel made t.attribs
      let first = first_made copy made
      if_null t.children (do c ← load made; after_copy level n first c.parent)
          λ child. pure (go_on (suc level) true (some child) first made))
    else (do d ← as_cdata n.body; iks_insert_cdata cur d.0 d.1; after_copy level n copy cur)

unfoldable pub copy_loop : ℕ → ℕ → CopyRound → Cmd Ptr
unfolding load copy_node after_copy
copy_loop fuel s (copied copy) = pure copy
copy_loop zero s (go_on level down x copy cur) = starve
copy_loop (suc fuel) s (go_on level down x copy cur) = do
  n ← load x
  next ← if down then copy_node fuel s level n copy cur else after_copy level n copy cur
  copy_loop fuel s next

unfoldable pub iks_copy_within : ℕ → Ptr → ℕ → Cmd Ptr
unfolding copy_loop
iks_copy_within fuel x s = copy_loop fuel s (go_on 0 true x none none)

-- Of a stack that could not be made, no memory can be had.
unfoldable pub iks_copy : ℕ → Ptr → Cmd Ptr
unfolding request iks_copy_within
iks_copy fuel x = do s ← request; if_null s crash λ a. iks_copy_within fuel x a
