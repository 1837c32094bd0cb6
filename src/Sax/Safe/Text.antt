-- ===== src/Sax/Safe/Text.antt =====
-- The contexts of text, entities, comments, markup and CDATA sections.
use iksemel.Base.{
  ℕ, leb, codes, ◌+◌, ◌*◌, ◌≤◌, ◌≡◌, refl, ◌==◌, none, not, [], ◌∷◌, ◌++◌, arith, Bytes, length,
  sym, ltb,
}
use mathlib.Core.Path.{subst}
use iksemel.Sax.Types.{
  Context, c_cdata, c_entity, c_comment, c_comment_1, c_comment_2, c_comment_3, c_markup,
  c_markup_1, c_sect, c_sect_cdata, c_sect_cdata_1, c_sect_cdata_2, c_sect_cdata_3, c_sect_cdata_4,
  c_sect_cdata_c, c_sect_cdata_e, c_sect_cdata_e2, c_pi, Env, Parser, Locals, ◌>>=◌,
}
use iksemel.Sax.Token.{call_cdata}
use iksemel.Sax.Core.{
  in_cdata, in_entity, expect, in_markup, in_sect_cdata_c, in_sect_cdata_e, in_sect_cdata_e2,
  entity_char, go_on,
}
use iksemel.Sax.Valid.{InvAt, PendingAt}
use iksemel.Sax.Safe.Stack.{stack_init-then, call_cdata-then, flush_cdata-then}
use iksemel.Sax.Safe.Post.{RoundOk, RoundEnsures, branch}

-- the contexts outside a tag, which know only that no attribute is there
abbrev pub Plain : Context → Type 0
Plain c_cdata = Unit
Plain c_comment = Unit
Plain c_comment_1 = Unit
Plain c_comment_2 = Unit
Plain c_comment_3 = Unit
Plain c_markup = Unit
Plain c_markup_1 = Unit
Plain c_sect = Unit
Plain c_sect_cdata = Unit
Plain c_sect_cdata_1 = Unit
Plain c_sect_cdata_2 = Unit
Plain c_sect_cdata_3 = Unit
Plain c_sect_cdata_4 = Unit
Plain c_sect_cdata_c = Unit
Plain c_sect_cdata_e = Unit
Plain c_sect_cdata_e2 = Unit
Plain c_pi = Unit
Plain _ = ⊥

InvAt-Plain :
    {U : Type 0} (p : Parser U) (ctx : Context) → Plain ctx → p.attcur ≡ 0 → InvAt none ctx p
InvAt-Plain p c_cdata h z = z
InvAt-Plain p c_comment h z = z
InvAt-Plain p c_comment_1 h z = z
InvAt-Plain p c_comment_2 h z = z
InvAt-Plain p c_comment_3 h z = z
InvAt-Plain p c_markup h z = z
InvAt-Plain p c_markup_1 h z = z
InvAt-Plain p c_sect h z = z
InvAt-Plain p c_sect_cdata h z = z
InvAt-Plain p c_sect_cdata_1 h z = z
InvAt-Plain p c_sect_cdata_2 h z = z
InvAt-Plain p c_sect_cdata_3 h z = z
InvAt-Plain p c_sect_cdata_4 h z = z
InvAt-Plain p c_sect_cdata_c h z = z
InvAt-Plain p c_sect_cdata_e h z = z
InvAt-Plain p c_sect_cdata_e2 h z = z
InvAt-Plain p c_pi h z = z
InvAt-Plain p _ h z = absurd h

module _ {U : Type 0} (env : Env U) (buf : Bytes) (c pos : ℕ) (l : Locals) (p : Parser U)
    (room : length p.stack ≤ p.stack_max) (size : length p.atts ≡ p.attmax * 2)
    (pending : PendingAt pos l.stack_old) (none_yet : p.attcur ≡ 0) where
  pub to_plain :
      (old : ℕ) (ctx : Context)
      → Plain ctx
      → RoundEnsures c pos p 1 (go_on (record l { old = old }) (record p { context = ctx }))
  to_plain old ctx plain = (
    record {
      room = room;
      size = size;
      at = InvAt-Plain (record p { context = ctx }) ctx plain none_yet;
    },
    pending,
    refl,
    refl,
    tt,
  )

  pub stay : Plain p.context → RoundEnsures c pos p 1 (go_on l p)
  stay plain = (
    record { room = room; size = size; at = InvAt-Plain p p.context plain none_yet },
    pending,
    refl,
    refl,
    tt,
  )

  -- behind a call of the hook on text
  said :
      (old : ℕ) (text : Bytes) (ctx : Context)
      → Plain ctx
      → RoundEnsures c pos p 1 (
          call_cdata env text p >>= λ q.
          go_on (record l { old = old }) (record q { context = ctx }))
  said old text ctx plain = call_cdata-then env (RoundOk c pos p 1) _ p text λ u. (
    record {
      room = room;
      size = size;
      at = InvAt-Plain (record p { user_data = u; context = ctx }) ctx plain none_yet;
    },
    pending,
    refl,
    refl,
    tt,
  )

  pub in_cdata-RoundOk : p.context ≡ c_cdata → RoundEnsures c pos p 1 (in_cdata env buf c pos l p)
  unfolding in_cdata
  in_cdata-RoundOk here =
      branch c pos p 1 (c == b'&') _ _
        (λ _. flush_cdata-then env (RoundOk c pos p 1) _ p buf pos l λ u. (
          record { room = room; size = size; at = (omega arith, none_yet) },
          pending,
          refl,
          refl,
          tt,
        ))
        λ _.
          branch c pos p 1 (c == b'<') _ _
            (λ _. flush_cdata-then env (RoundOk c pos p 1) _ p buf pos l λ u.
              stack_init-then env (RoundOk c pos p 1) _ (record p { user_data = u }) room
                λ m room'. (
                  record {
                    room = room';
                    size = size;
                    at = (length p.stack, refl, omega arith, none_yet);
                  },
                  pending,
                  refl,
                  refl,
                  tt,
                ))
            λ _. stay (subst Plain (sym here) tt)

  pub in_entity-RoundOk :
      length p.entity ≤ 7
      → p.context ≡ c_entity
      → RoundEnsures c pos p 1 (in_entity env buf c pos l p)
  unfolding in_entity
  in_entity-RoundOk short here =
      branch c pos p 1 (leb 8 (length p.entity)) _ _ (λ long. absurd (ground (arith, long)))
        λ _.
          branch c pos p 1 (c == b';') _ _
            (λ _. said (pos + 1) (entity_char p.entity ∷ []) c_cdata tt)
            λ _.
              branch c pos p 1 (ltb 7 (length (p.entity ++ c ∷ []))) _ _
                (λ _. (omega arith, refl, refl))
                λ fits.
                  let within : length (p.entity ++ c ∷ []) ≤ 7 = ground (arith, fits) in
                  (
                    record {
                      room = room;
                      size = size;
                      at =
                          subst (λ x. InvAt none x (record p { entity = p.entity ++ c ∷ [] }))
                            (sym here) (within, none_yet);
                    },
                    pending,
                    refl,
                    refl,
                    tt,
                  )

  pub expect-RoundOk :
      (wanted : ℕ) (ctx : Context)
      → Plain ctx
      → RoundEnsures c pos p 1 (expect env buf c pos l p wanted ctx)
  unfolding expect
  expect-RoundOk wanted ctx plain =
      branch c pos p 1 (not (c == wanted)) _ _ (λ _. (omega arith, refl, refl))
        λ _. to_plain l.old ctx plain

  pub in_markup-RoundOk : RoundEnsures c pos p 1 (in_markup env buf c pos l p)
  unfolding in_markup
  in_markup-RoundOk =
      branch c pos p 1 (c == b'[') _ _ (λ _. to_plain l.old c_sect tt)
        λ _.
          branch c pos p 1 (c == b'-') _ _ (λ _. to_plain l.old c_comment tt)
            λ _.
              branch c pos p 1 (c == b'>') _ _ (λ _. to_plain (pos + 1) c_cdata tt)
                λ _. to_plain l.old c_markup_1 tt

  pub in_sect_cdata_c-RoundOk :
      p.context ≡ c_sect_cdata_c → RoundEnsures c pos p 1 (in_sect_cdata_c env buf c pos l p)
  unfolding in_sect_cdata_c
  in_sect_cdata_c-RoundOk here =
      branch c pos p 1 (c == b']') _ _
        (λ _.
          flush_cdata-then env (RoundOk c pos p 1) _ (record p { context = c_sect_cdata_e }) buf pos
            l λ u. (record { room = room; size = size; at = none_yet }, pending, refl, refl, tt))
        λ _. stay (subst Plain (sym here) tt)

  pub in_sect_cdata_e-RoundOk : RoundEnsures c pos p 1 (in_sect_cdata_e env buf c pos l p)
  unfolding in_sect_cdata_e
  in_sect_cdata_e-RoundOk =
      branch c pos p 1 (c == b']') _ _ (λ _. to_plain l.old c_sect_cdata_e2 tt)
        λ _. said pos (codes "]") c_sect_cdata_c tt

  pub in_sect_cdata_e2-RoundOk :
      p.context ≡ c_sect_cdata_e2 → RoundEnsures c pos p 1 (in_sect_cdata_e2 env buf c pos l p)
  unfolding in_sect_cdata_e2
  in_sect_cdata_e2-RoundOk here =
      branch c pos p 1 (c == b'>') _ _ (λ _. to_plain (pos + 1) c_cdata tt)
        λ _.
          branch c pos p 1 (c == b']') _ _
            (λ _. call_cdata-then env (RoundOk c pos p 1) _ p (codes "]") λ u. (
              record {
                room = room;
                size = size;
                at = subst (λ x. InvAt none x (record p { user_data = u })) (sym here) none_yet;
              },
              pending,
              refl,
              refl,
              tt,
            ))
            λ _.
              call_cdata-then env (RoundOk c pos p 1) _ (record p { context = c_sect_cdata_c })
                (codes "]]")
                λ u. (record { room = room; size = size; at = none_yet }, pending, refl, refl, tt)
