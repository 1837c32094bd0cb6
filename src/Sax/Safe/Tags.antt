-- ===== src/Sax/Safe/Tags.antt =====
-- The contexts of a tag, from its name to its end.
use iksemel.Base.{
  ℕ, ◌*◌, ◌≤◌, ◌≡◌, refl, ◌⊎◌, inl, inr, Bool, true, false, ◌==◌, Option, Option-cases, none, some,
  not, get_elem?-set_self, ◌∙◌, [], ◌∷◌, ◌++◌, arith, Bytes, length, length-set, sym,
}
use mathlib.Core.Path.{subst}
use iksemel.Sax.Types.{
  Context, c_tag, c_tag_end, c_attribute, c_whitespace, TagType, iks_open, iks_close, iks_single,
  Env, Parser, Locals,
}
use iksemel.Sax.Core.{
  is_whitespace, in_tag_start, end_name, in_tag, in_tag_end, in_attribute, after_name,
  start_pending, bad_xml,
}
use iksemel.Sax.Valid.{
  Naming, Attrs, Readable, InvAt, NotEnd, PendingAt, Term-end, AllTerm, AllTerm-set, rank,
}
use iksemel.Sax.Safe.Hook.{call_tag-then}
use iksemel.Sax.Safe.Stack.{end_token-then, set_att-then, atts_room-then}
use iksemel.Sax.Safe.Post.{RoundOk, RoundEnsures, held_byte, RankOk, branch}

-- A byte that ends the tag is not one that is looked at again, so no attribute came before it.
no_attributes :
    {U : Type 0} (p : Parser U) (c : ℕ) (held : Option ℕ)
    → (p.attcur ≡ 0) ⊎ NotEnd held p.uni_max
    → ((d : ℕ) → held ≡ some d → c ≡ d)
    → (c ≡ b'/') ⊎ (c ≡ b'>')
    → p.attcur ≡ 0
no_attributes p c none start same e = ground arith
no_attributes p c (some d) start same e = ground (arith, same d refl)

pub start_pending-PendingAt :
    (pos : ℕ) (l : Locals)
    → PendingAt pos l.stack_old
    → PendingAt pos (start_pending pos l).stack_old
start_pending-PendingAt pos l h = elim (Option-cases l.stack_old) [
  | inl e ↦ rw (e, start_pending) (omega arith)
  | inr (i, e) ↦ rw (e, start_pending) h
]

module _ {U : Type 0} (env : Env U) (buf : Bytes) (c pos : ℕ) (l : Locals) (p : Parser U)
    (room : length p.stack ≤ p.stack_max) (size : length p.atts ≡ p.attmax * 2)
    (pending : PendingAt pos l.stack_old) where
  pub in_tag_start-RoundOk : Naming p → RoundEnsures c pos p 1 (in_tag_start env buf c pos l p)
  unfolding in_tag_start
  in_tag_start-RoundOk (o, e, le, none_yet) =
      branch c pos p 1 (c == b'/') _ _
        (λ slash.
          (record { room = room; size = size; at = (o, e, le, none_yet) }, pending, refl, refl, tt))
        λ _.
          branch c pos p 1 (c == b'?') _ _
            (λ _. (record { room = room; size = size; at = none_yet }, pending, refl, refl, tt))
            λ _.
              branch c pos p 1 (c == b'!') _ _
                (λ _. (record { room = room; size = size; at = none_yet }, pending, refl, refl, tt))
                λ _. (
                  record { room = room; size = size; at = (o, e, le, none_yet) },
                  omega arith,
                  refl,
                  refl,
                  tt,
                )

  -- behind the name, in the three branches that end it
  end_name-RoundOk :
      (re : Bool) (t : TagType) (old ctx : Context)
      → Naming p
      → ((s : Bytes) (m : ℕ)
          → Readable
              (record p { stack = s; stack_max = m; tagtype = t; oldcontext = old; context = ctx })
          → InvAt
              (held_byte re c)
              ctx
              (record p { stack = s; stack_max = m; tagtype = t; oldcontext = old; context = ctx }))
      → RankOk re (rank ctx) 1
      → RoundEnsures c pos p 1 (
          end_name env buf c pos l p re (record p { tagtype = t; oldcontext = old; context = ctx }))
  unfolding end_name
  end_name-RoundOk re t old ctx (o, e, le, none_yet) at lower =
      end_token-then env (RoundOk c pos p 1) _
        (record p { tagtype = t; oldcontext = old; context = ctx }) buf pos l room pending
        λ b m room'. (
          record {
            room = room';
            size = size;
            at = at (p.stack ++ (b ++ 0 ∷ [])) m ((o, e, Term-end p.stack b o le), inl none_yet);
          },
          tt,
          refl,
          refl,
          lower,
        )

  pub in_tag-RoundOk :
      p.context ≡ c_tag → Naming p → RoundEnsures c pos p 1 (in_tag env buf c pos l p)
  unfolding in_tag
  in_tag-RoundOk here naming =
      branch c pos p 1 (is_whitespace c) _ _ (λ _. blank p.tagtype)
        λ _.
          branch c pos p 1 (c == b'/') _ _ (λ _. slash p.tagtype)
            λ _.
              branch c pos p 1 (c == b'>') _ _
                (λ _.
                  end_name-RoundOk true p.tagtype p.oldcontext c_tag_end naming (λ s m r. r)
                    (omega arith))
                λ _. (
                  record {
                    room = room;
                    size = size;
                    at = subst (λ x. InvAt none x p) (sym here) naming;
                  },
                  start_pending-PendingAt pos l pending,
                  refl,
                  refl,
                  tt,
                )
    where
      none_yet : p.attcur ≡ 0
      none_yet = naming.3

      attrs : (s : Bytes) → AllTerm s p.attcur p.atts
      attrs s = subst (λ n. AllTerm s n p.atts) (sym none_yet) tt

      blank :
          (t : TagType)
          → RoundEnsures c pos p 1 (
              end_name env buf c pos l p false
                (record p { tagtype = t; oldcontext = after_name t; context = c_whitespace }))
      blank iks_open =
          end_name-RoundOk false iks_open c_attribute c_whitespace naming
            (λ s m r. ((r.0, attrs s), none_yet)) tt
      blank iks_single =
          end_name-RoundOk false iks_single c_attribute c_whitespace naming
            (λ s m r. ((r.0, attrs s), none_yet)) tt
      blank iks_close =
          end_name-RoundOk false iks_close c_tag_end c_whitespace naming (λ s m r. r) tt

      slash :
          (t : TagType)
          → RoundEnsures c pos p 1 (elim t [
            | iks_close ↦ bad_xml p
            | _ ↦
                end_name env buf c pos l p false
                  (record p { tagtype = iks_single; context = c_tag_end })
          ])
      slash iks_close = (omega arith, refl, refl)
      slash _ = end_name-RoundOk false iks_single p.oldcontext c_tag_end naming (λ s m r. r) tt

  pub in_tag_end-RoundOk : Readable p → RoundEnsures c pos p 0 (in_tag_end env buf c pos l p)
  unfolding in_tag_end
  in_tag_end-RoundOk readable =
      branch c pos p 0 (not (c == b'>')) _ _ (λ _. (omega arith, refl, refl))
        λ _.
          call_tag-then env (RoundOk c pos p 0) _ p readable
            λ u. (record { room = omega arith; size = size; at = refl }, tt, refl, refl, tt)

  pub in_attribute-RoundOk :
      (held : Option ℕ)
      → Attrs p × ((p.attcur ≡ 0) ⊎ NotEnd held p.uni_max)
      → ((d : ℕ) → held ≡ some d → c ≡ d)
      → p.attcur ≤ length p.atts
      → RoundEnsures c pos p 1 (in_attribute env buf c pos l p)
  unfolding in_attribute
  in_attribute-RoundOk held ((named, terms), start) same cur =
      branch c pos p 1 (c == b'/') _ _
        (λ e. (
          record { room = room; size = size; at = (named, inl (first (inl (ground (arith, e))))) },
          pending,
          refl,
          refl,
          tt,
        ))
        λ _.
          branch c pos p 1 (c == b'>') _ _
            (λ e. (
              record {
                room = room;
                size = size;
                at = (named, inl (first (inr (ground (arith, e)))));
              },
              pending,
              refl,
              refl,
              omega arith,
            ))
            λ _.
              atts_room-then env (RoundOk c pos p 1) _ p size cur terms λ m os size' space terms'.
                set_att-then env (RoundOk c pos p 1) _
                  (record p { attmax = m; atts = os; attflag = 1 }) p.attcur (some (length p.stack))
                  (omega arith)
                  (
                    record {
                      room = room;
                      size = length-set os p.attcur (some (length p.stack)) ∙ size';
                      at = (
                        (
                          named,
                          AllTerm-set p.stack p.attcur p.attcur os (some (length p.stack))
                              (omega arith) terms',
                        ),
                        (
                          length p.stack,
                          get_elem?-set_self os p.attcur (some (length p.stack)) (omega arith),
                          omega arith,
                        ),
                        omega (arith, length-set os p.attcur (some (length p.stack))),
                      );
                    },
                    omega arith,
                    refl,
                    refl,
                    tt,
                  )
    where
      first : (c ≡ b'/') ⊎ (c ≡ b'>') → p.attcur ≡ 0
      first = no_attributes p c held start same
