-- ===== src/Sax/Token.antt =====
-- The token stack and the attribute array of src/sax.c, and the calls of the hooks.
use iksemel.Base.{
  ℕ, ◌+◌, ◌-◌, ◌*◌, ◌/◌, ◌==◌, ltb, leb, if◌then◌else◌, Option, none, some, List, [], ◌∷◌, ◌++◌,
  Bytes, length, take, drop, set, replicate, c_string,
}
use iksemel.Sax.Types.{Env, Parser, Locals, Outcome, ok, err, fault, ◌>>=◌, iks_ok, iks_nomem}

-- `buf + i`, `j - i` bytes of it
abbrev pub slice : Bytes → ℕ → ℕ → Bytes
slice buf i j = take (j - i) (drop i buf)

-- the size that `stack_expand` asks for, for `len` more bytes above `pos`
unfoldable pub expanded_size : ℕ → ℕ → ℕ → ℕ
expanded_size max pos len =
    let need = len - (max - pos) in if ltb need max then max * 2 else max + need * 6 / 5

-- the strings in front of the NULL that ends the array
unfoldable pub read_atts : Bytes → List (Option ℕ) → Option (List Bytes)
read_atts stack [] = none
read_atts stack (none ∷ os) = some []
read_atts stack (some o ∷ os) = elim (c_string (drop o stack)) [
  | none ↦ none
  | some s ↦ elim (read_atts stack os) [ none ↦ none | some ss ↦ some (s ∷ ss) ]
]

module _ {U : Type 0} where
  -- `memcpy (prs->stack + prs->stack_pos, sbuf, slen); prs->stack_pos += slen;` with its bound
  unfoldable pub stack_write : Bytes → Parser U → Outcome U (Parser U)
  stack_write bs p =
      if leb (length p.stack + length bs) p.stack_max
      then ok (record p { stack = p.stack ++ bs })
      else fault

  -- `prs->atts[i] = o` with its bound
  unfoldable pub set_att : ℕ → Option ℕ → Parser U → Outcome U (Parser U)
  set_att i o p = if ltb i (length p.atts) then ok (record p { atts = set p.atts i o }) else fault

  -- the arguments of `tagHook`: the name, and the attributes if there are any
  unfoldable pub tag_name_of : Parser U → Option Bytes
  tag_name_of p = elim p.tag_name [ none ↦ none | some o ↦ c_string (drop o p.stack) ]

  unfoldable pub tag_atts_of : Parser U → Option (Option (List Bytes))
  tag_atts_of p =
      if p.attcur == 0
      then some none
      else elim (read_atts p.stack p.atts) [ none ↦ none | some ss ↦ some (some ss) ]

module _ {U : Type 0} (env : Env U) where
  -- `stack_init`, behind the test of `STACK_INIT`
  unfoldable pub stack_init : Parser U → Outcome U (Parser U)
  stack_init p =
      if p.stack_max == 0
      then if env.malloc 128 then ok (record p { stack_max = 128; stack = [] }) else err iks_nomem p
      else ok p

  -- `stack_expand`; the offsets stand for pointers, which it moves with the block.
  unfoldable pub stack_expand : ℕ → Parser U → Outcome U (Parser U)
  unfolding expanded_size
  stack_expand len p =
      let need = expanded_size p.stack_max (length p.stack) len in
      if env.malloc need then ok (record p { stack_max = need }) else err iks_nomem p

  -- `STACK_PUSH`
  unfoldable pub stack_push : Bytes → Parser U → Outcome U (Parser U)
  stack_push bs p =
      let room =
        if leb (p.stack_max - length p.stack) (length bs)
        then stack_expand (length bs) p
        else ok p in
      room >>= stack_write bs

  -- `STACK_PUSH_END`
  unfoldable pub stack_push_end : Parser U → Outcome U (Parser U)
  stack_push_end p =
      let room = if leb p.stack_max (length p.stack) then stack_expand 1 p else ok p in
      room >>= stack_write (0 ∷ [])

  -- `if (stack_old != -1) STACK_PUSH (buf + stack_old, pos - stack_old);` with the bound on the
  -- length, which becomes a `size_t`
  unfoldable pub push_pending : Bytes → ℕ → Option ℕ → Parser U → Outcome U (Parser U)
  push_pending buf pos none p = ok p
  push_pending buf pos (some i) p = if leb i pos then stack_push (slice buf i pos) p else fault

  -- The same, and `STACK_PUSH_END`: the token is complete. The caller sets `stack_old` to -1.
  unfoldable pub end_token : Bytes → ℕ → Locals → Parser U → Outcome U (Parser U)
  end_token buf pos l p = do q ← push_pending buf pos l.stack_old p; stack_push_end q

  -- the array with `max` places for a name and a value, the used ones kept
  unfoldable pub grow_atts : ℕ → Parser U → Outcome U (Parser U)
  grow_atts max p =
      if env.malloc (8 * 2 * max)
      then ok (record p {
        attmax = max;
        atts = take p.attcur p.atts ++ replicate (max * 2 - p.attcur) none;
      })
      else err iks_nomem (record p { attmax = max })

  -- the array of `C_ATTRIBUTE`: made on first use, and grown by 12 places
  unfoldable pub atts_room : Parser U → Outcome U (Parser U)
  atts_room p =
      if length p.atts == 0
      then if env.malloc (8 * 2 * 12)
        then ok (record p { attmax = 12; atts = replicate 24 none; attcur = 0 })
        else err iks_nomem (record p { attmax = 12 })
      else if leb ((p.attmax - 1) * 2) p.attcur
      then grow_atts (p.attmax + 12) p
      else ok p

  -- `if (prs->cdataHook) { err = prs->cdataHook (…); if (IKS_OK != err) return err; }`
  unfoldable pub call_cdata : Bytes → Parser U → Outcome U (Parser U)
  call_cdata text p = elim env.cdata_hook [
    | none ↦ ok p
    | some hook ↦
        let (e, u) = hook p.user_data text in
        let q = record p { user_data = u } in if e == iks_ok then ok q else err e q
  ]

  -- the same on the text from `old` to `pos`, if there is any
  unfoldable pub flush_cdata : Bytes → ℕ → Locals → Parser U → Outcome U (Parser U)
  flush_cdata buf pos l p = if ltb l.old pos then call_cdata (slice buf l.old pos) p else ok p

  -- the call of `tagHook` in `C_TAG_END`; a string or an array that nothing ends is a fault.
  unfoldable pub call_tag : Parser U → Outcome U (Parser U)
  call_tag p = elim env.tag_hook [
    | none ↦ ok p
    | some hook ↦ elim (tag_name_of p) [
      | none ↦ fault
      | some name ↦ elim (tag_atts_of p) [
        | none ↦ fault
        | some atts ↦
            let (e, u) = hook p.user_data name atts p.tagtype in
            let q = record p { user_data = u } in if e == iks_ok then ok q else err e q
      ]
    ]
  ]
