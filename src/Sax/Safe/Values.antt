-- ===== src/Sax/Safe/Values.antt =====
-- The contexts of an attribute's name and value, and the blanks between them.
use iksemel.Base.{
  ℕ, suc, bit_and, ◌+◌, ◌*◌, ◌≤◌, ◌<◌, ◌≡◌, refl, inl, inr, ◌==◌, Option, none, some, not,
  get_elem?-set_self, ◌∙◌, List, [], ◌∷◌, ◌++◌, arith, Bytes, length, get_elem?, set, length-set,
  length-append, sym,
}
use mathlib.Core.Path.{subst}
use iksemel.Sax.Types.{
  Context, c_tag_end, c_attribute, c_attribute_1, c_attribute_2, c_value, c_value_apos,
  c_whitespace, iks_single, Env, Parser, Locals,
}
use iksemel.Sax.Core.{
  is_whitespace, in_attribute_1, in_value, open_quote, in_quoted, after_value, in_whitespace,
  in_attribute_2,
}
use iksemel.Sax.Valid.{
  Named, Attrs, Slot, InvAt, PendingAt, Term-end, AllTerm, AllTerm-append, AllTerm-Ended,
  AllTerm-set, AllTerm-suc, Resumes, Term, Term-append, rank,
}
use iksemel.Sax.Safe.Stack.{end_token-then, set_att-then}
use iksemel.Sax.Safe.Tags.{start_pending-PendingAt}
use iksemel.Sax.Safe.Post.{RoundOk, RoundEnsures, branch}

module _ {U : Type 0} (env : Env U) (buf : Bytes) (c pos : ℕ) (l : Locals) (p : Parser U)
    (room : length p.stack ≤ p.stack_max) (size : length p.atts ≡ p.attmax * 2)
    (pending : PendingAt pos l.stack_old) where
  pub in_attribute_1-RoundOk :
      p.context ≡ c_attribute_1
      → Attrs p × Slot p p.attcur × (p.attcur + 2 < length p.atts)
      → RoundEnsures c pos p 1 (in_attribute_1 env buf c pos l p)
  unfolding in_attribute_1
  in_attribute_1-RoundOk here ((named, terms), (o, e, le), space) =
      branch c pos p 1 (c == b'=') _ _
        (λ _. end_token-then env (RoundOk c pos p 1) _ p buf pos l room pending λ b m room'. (
          record {
            room = room';
            size = size;
            at = (
              longer b,
              AllTerm-suc (p.stack ++ (b ++ 0 ∷ [])) p.attcur p.atts (kept b) e
                  (Term-end p.stack b o le),
              space,
            );
          },
          tt,
          refl,
          refl,
          tt,
        ))
        λ _.
          branch c pos p 1 (is_whitespace c) _ _
            (λ _. end_token-then env (RoundOk c pos p 1) _ p buf pos l room pending λ b m room'. (
              record {
                room = room';
                size = size;
                at = (
                  (longer b, kept b),
                  (o, e, omega (arith, length-append p.stack (b ++ 0 ∷ []))),
                  space,
                );
              },
              tt,
              refl,
              refl,
              tt,
            ))
            λ _. (
              record {
                room = room;
                size = size;
                at = subst (λ x. InvAt none x p) (sym here) ((named, terms), (o, e, le), space);
              },
              start_pending-PendingAt pos l pending,
              refl,
              refl,
              tt,
            )
    where
      longer : (b : Bytes) → (o : ℕ) × (p.tag_name ≡ some o) × Term (p.stack ++ (b ++ 0 ∷ [])) o
      longer b = (named.0, named.1, Term-append p.stack (b ++ 0 ∷ []) named.0 named.2)

      kept : (b : Bytes) → AllTerm (p.stack ++ (b ++ 0 ∷ [])) p.attcur p.atts
      kept b = AllTerm-append p.stack (b ++ 0 ∷ []) p.attcur p.atts terms

  pub in_attribute_2-RoundOk :
      p.uni_max ≡ 0
      → bit_and c 0x80 ≡ 0
      → Attrs p × (p.attcur < length p.atts)
      → RoundEnsures c pos p 2 (in_attribute_2 env buf c pos l p)
  unfolding in_attribute_2
  in_attribute_2-RoundOk single plain ((named, terms), space) =
      branch c pos p 2 (c == b'/') _ _
        (λ _.
          set_att-then env (RoundOk c pos p 2) _ (record p { tagtype = iks_single }) p.attcur none
            space
            (
              record {
                room = room;
                size = length-set p.atts p.attcur none ∙ size;
                at = (named, inr (AllTerm-Ended p.stack p.attcur p.atts space terms));
              },
              pending,
              refl,
              refl,
              tt,
            ))
        λ no_slash.
          branch c pos p 2 (c == b'>') _ _
            (λ _. set_att-then env (RoundOk c pos p 2) _ p p.attcur none space (
              record {
                room = room;
                size = length-set p.atts p.attcur none ∙ size;
                at = (named, inr (AllTerm-Ended p.stack p.attcur p.atts space terms));
              },
              pending,
              refl,
              refl,
              omega arith,
            ))
            λ no_end. (
              record {
                room = room;
                size = size;
                at = (
                  (named, terms),
                  inr (ground (arith, no_slash), ground (arith, no_end), single, plain),
                );
              },
              pending,
              refl,
              refl,
              omega arith,
            )

  pub in_value-RoundOk :
      p.context ≡ c_value
      → Named p × AllTerm p.stack (suc p.attcur) p.atts × (p.attcur + 2 < length p.atts)
      → RoundEnsures c pos p 1 (in_value env buf c pos l p)
  unfolding in_value open_quote
  in_value-RoundOk here (named, terms, space) =
      branch c pos p 1 (is_whitespace c) _ _
        (λ _. (
          record {
            room = room;
            size = size;
            at = subst (λ x. InvAt none x p) (sym here) (named, terms, space);
          },
          pending,
          refl,
          refl,
          tt,
        ))
        λ _.
          set_att-then env (RoundOk c pos p 1) _ p (p.attcur + 1) (some (length p.stack))
            (omega arith)
            (branch c pos p 1 (c == 0x27) _ _
              (λ _. (record { room = room; size = size'; at = opened }, pending, refl, refl, tt))
              λ _.
                branch c pos p 1 (c == b'"') _ _
                  (λ _.
                    (record { room = room; size = size'; at = opened }, pending, refl, refl, tt))
                  λ _. (omega arith, refl, refl))
    where
      atts' : List (Option ℕ)
      atts' = set p.atts (p.attcur + 1) (some (length p.stack))

      length_atts' : length atts' ≡ length p.atts
      length_atts' = length-set p.atts (p.attcur + 1) (some (length p.stack))

      size' : length atts' ≡ p.attmax * 2
      size' = length_atts' ∙ size

      opened : InvAt none c_value_apos (record p { atts = atts' })
      opened = (
        named,
        AllTerm-set p.stack (suc p.attcur) (p.attcur + 1) p.atts (some (length p.stack))
            (omega arith) terms,
        (
          length p.stack,
          subst (λ i. get_elem? atts' i ≡ some (some (length p.stack))) (omega arith)
              (get_elem?-set_self p.atts (p.attcur + 1) (some (length p.stack)) (omega arith)),
          omega arith,
        ),
        omega (arith, length_atts'),
      )

  pub in_quoted-RoundOk :
      (quote : ℕ)
      → InvAt none p.context p
      → Named p
        × AllTerm p.stack (suc p.attcur) p.atts
        × Slot p (suc p.attcur)
        × (p.attcur + 2 < length p.atts)
      → RoundEnsures c pos p 1 (in_quoted env buf c pos l p quote)
  unfolding in_quoted after_value
  in_quoted-RoundOk quote stay (named, terms, (o, e, le), space) =
      branch c pos p 1 (c == quote) _ _
        (λ _. end_token-then env (RoundOk c pos p 1) _ p buf pos l room pending λ b m room'. (
          record {
            room = room';
            size = size;
            at = (
              (
                (named.0, named.1, Term-append p.stack (b ++ 0 ∷ []) named.0 named.2),
                subst (λ n. AllTerm (p.stack ++ (b ++ 0 ∷ [])) n p.atts) {x = suc (suc p.attcur)}
                    (omega arith)
                    (AllTerm-suc (p.stack ++ (b ++ 0 ∷ [])) (suc p.attcur) p.atts
                      (AllTerm-append p.stack (b ++ 0 ∷ []) (suc p.attcur) p.atts terms) e
                      (Term-end p.stack b o le)),
              ),
              space,
            );
          },
          omega arith,
          refl,
          refl,
          tt,
        ))
        λ _. (
          record { room = room; size = size; at = stay },
          start_pending-PendingAt pos l pending,
          refl,
          refl,
          tt,
        )

  pub in_whitespace-RoundOk :
      p.context ≡ c_whitespace
      → Resumes p.oldcontext p
      → RoundEnsures c pos p 3 (in_whitespace env buf c pos l p)
  unfolding in_whitespace
  in_whitespace-RoundOk here resumes =
      branch c pos p 3 (not (is_whitespace c)) _ _
        (λ _.
          let (at, lower) = resumed (some c) p.oldcontext resumes in
          (record { room = room; size = size; at = at }, pending, refl, refl, lower))
        λ _. (
          record { room = room; size = size; at = subst (λ x. InvAt none x p) (sym here) resumes },
          pending,
          refl,
          refl,
          tt,
        )
    where
      resumed :
          (held : Option ℕ) (ctx : Context)
          → Resumes ctx p
          → InvAt held ctx (record p { context = ctx }) × (rank ctx < 3)
      resumed held c_tag_end r = (r, omega arith)
      resumed held c_attribute r = ((r.0, inl r.1), omega arith)
      resumed held c_attribute_1 r = (r, omega arith)
      resumed held c_attribute_2 r = (r, omega arith)
      resumed held _ r = absurd r
