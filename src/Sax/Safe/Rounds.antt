-- ===== src/Sax/Safe/Rounds.antt =====
-- One round of the loop, whatever the context.
use iksemel.Base.{
  ℕ, ◌%◌, ◌^◌, bit_and, ◌||◌, if◌then◌else◌, ◌+◌, ◌*◌, ◌≤◌, ◌≡◌, refl, ◌⊎◌, inl, inr, ◌==◌,
  Bool-cases, Option, Option-cases, none, some, not, if◌then◌else◌, arith, Bytes, length, sym, ◌≢◌,
  ltb,
}
use mathlib.Core.Path.{subst}
use iksemel.Sax.Types.{
  add32, Context, c_tag, c_tag_end, c_attribute, c_attribute_1, c_attribute_2, c_value,
  c_value_apos, c_value_quot, c_whitespace, c_cdata, c_tag_start, c_entity, c_comment, c_comment_1,
  c_comment_2, c_comment_3, c_markup, c_markup_1, c_sect, c_sect_cdata, c_sect_cdata_1,
  c_sect_cdata_2, c_sect_cdata_3, c_sect_cdata_4, c_sect_cdata_c, c_sect_cdata_e, c_sect_cdata_e2,
  c_pi, Env, Parser, Locals, Outcome, ◌>>=◌,
}
use iksemel.Sax.Core.{
  in_context, examine, utf8_next, least_value, keeps_pending, utf8_lead, utf8_first, in_markup_1,
  start_pending,
}
use iksemel.Sax.Valid.{InvAt, PendingAt, AllTerm-le, Resumes, rank}
use iksemel.Sax.Safe.Ensures.{Ensures, Fails}
use iksemel.Sax.Safe.Tags.{start_pending-PendingAt}
use iksemel.Sax.Safe.Tags.{
  in_tag_start-RoundOk, in_tag-RoundOk, in_tag_end-RoundOk, in_attribute-RoundOk,
}
use iksemel.Sax.Safe.Values.{
  in_attribute_1-RoundOk, in_attribute_2-RoundOk, in_value-RoundOk, in_quoted-RoundOk,
  in_whitespace-RoundOk,
}
use iksemel.Sax.Safe.Text.{
  Plain, to_plain, stay, in_cdata-RoundOk, in_entity-RoundOk, expect-RoundOk, in_markup-RoundOk,
  in_sect_cdata_c-RoundOk, in_sect_cdata_e-RoundOk, in_sect_cdata_e2-RoundOk,
}
use iksemel.Sax.Safe.Post.{RoundOk, RoundEnsures, branch}

Resumes-uni :
    {U : Type 0} (p : Parser U) (ctx : Context) (m n k : ℕ)
    → Resumes ctx p
    → Resumes ctx (record p { uni_max = m; uni_len = n; uni_char = k })
Resumes-uni p c_attribute m n k h = h
Resumes-uni p _ m n k h = h

-- A byte of a multi-byte sequence is never one that is looked at again.
InvAt-fresh :
    {U : Type 0} (p : Parser U) (c : ℕ) (ctx : Context) (held : Option ℕ)
    → ((d : ℕ) → held ≡ some d → c ≡ d)
    → (p.uni_max ≢ 0) ⊎ (bit_and c 0x80 ≢ 0)
    → InvAt held ctx p
    → (m n k : ℕ) → InvAt none ctx (record p { uni_max = m; uni_len = n; uni_char = k })
InvAt-fresh p c c_attribute none same high at m n k = at
InvAt-fresh p c c_attribute (some d) same high (attrs, start) m n k = (
  attrs,
  elim start [
    | inl z ↦ inl z
    | inr (_, _, single, plain) ↦
        absurd (elim high [ inl ne ↦ ne single | inr ne ↦ ne (rw (same d refl) plain) ])
  ],
)
InvAt-fresh p c c_whitespace held same high at m n k = Resumes-uni p p.oldcontext m n k at
InvAt-fresh p c _ held same high at m n k = at

utf8_next-then :
    {U B : Type 0} (Q : B → Type 0) (f : Parser U → Outcome U B) (c : ℕ) (p : Parser U)
    → ((m n k : ℕ) → Ensures (Fails p) Q (f (record p { uni_max = m; uni_len = n; uni_char = k })))
    → Ensures (Fails p) Q (utf8_next c p >>= f)
unfolding utf8_next
utf8_next-then Q f c p k = elim (Bool-cases (not (bit_and c 0xc0 == 0x80))) [
  | inl bad ↦ rw bad (omega arith, refl, refl)
  | inr good ↦
      let value = add32 ((p.uni_char * 2 ^ 6) % 2 ^ 32) (bit_and c 0x3f) in
      rw good (elim (Bool-cases (not (p.uni_len + 1 == p.uni_max))) [
        | inl more ↦ rw more (k p.uni_max (p.uni_len + 1) value)
        | inr last ↦ rw last (elim (Bool-cases (ltb value (least_value p.uni_max))) [
          | inl long ↦ rw long (omega arith, refl, refl)
          | inr short ↦ rw short (k 0 (p.uni_len + 1) 0)
        ])
      ])
]

module _ {U : Type 0} (env : Env U) (buf : Bytes) (c pos : ℕ) (l : Locals) (p : Parser U)
    (room : length p.stack ≤ p.stack_max) (size : length p.atts ≡ p.attmax * 2)
    (pending : PendingAt pos l.stack_old) where
  utf8_first-RoundOk :
      ((m n k : ℕ) → InvAt none p.context (record p { uni_max = m; uni_len = n; uni_char = k }))
      → RoundEnsures c pos p (rank p.context) (utf8_first c pos l p)
  unfolding utf8_first
  utf8_first-RoundOk at = elim (Option-cases (utf8_lead c)) [
    | inl e ↦ rw (e, utf8_first) (omega arith, refl, refl)
    | inr ((n, mask), e) ↦
        rw (e, utf8_first)
          (record { room = room; size = size; at = at n 1 (bit_and c mask) }, kept, refl, refl, tt)
  ]
    where
      kept : PendingAt pos (if keeps_pending p.context then start_pending pos l else l).stack_old
      kept = elim (Bool-cases (keeps_pending p.context)) [
        | inl e ↦ rw e (start_pending-PendingAt pos l pending)
        | inr e ↦ rw e pending
      ]

module _ {U : Type 0} (env : Env U) (buf : Bytes) (c pos : ℕ) (l : Locals) (p : Parser U)
    (room : length p.stack ≤ p.stack_max) (size : length p.atts ≡ p.attmax * 2)
    (pending : PendingAt pos l.stack_old) (held : Option ℕ)
    (same : (d : ℕ) → held ≡ some d → c ≡ d) where
  in_context-RoundOk :
      (ctx : Context)
      → p.context ≡ ctx
      → p.uni_max ≡ 0
      → bit_and c 0x80 ≡ 0
      → InvAt held ctx p
      → RoundEnsures c pos p (rank ctx) (in_context env buf c pos l p ctx)
  unfolding in_context in_markup_1
  in_context-RoundOk c_cdata here single plain at =
      in_cdata-RoundOk env buf c pos l p room size pending at here
  in_context-RoundOk c_tag_start here single plain at =
      in_tag_start-RoundOk env buf c pos l p room size pending at
  in_context-RoundOk c_tag here single plain at =
      in_tag-RoundOk env buf c pos l p room size pending here at
  in_context-RoundOk c_tag_end here single plain at =
      in_tag_end-RoundOk env buf c pos l p room size pending at
  in_context-RoundOk c_attribute here single plain at =
      in_attribute-RoundOk env buf c pos l p room size pending held at same
        (AllTerm-le p.stack p.attcur p.atts at.0.1)
  in_context-RoundOk c_attribute_1 here single plain at =
      in_attribute_1-RoundOk env buf c pos l p room size pending here at
  in_context-RoundOk c_attribute_2 here single plain at =
      in_attribute_2-RoundOk env buf c pos l p room size pending single plain at
  in_context-RoundOk c_value here single plain at =
      in_value-RoundOk env buf c pos l p room size pending here at
  in_context-RoundOk c_value_apos here single plain at =
      in_quoted-RoundOk env buf c pos l p room size pending 0x27
        (subst (λ x. InvAt none x p) (sym here) at) at
  in_context-RoundOk c_value_quot here single plain at =
      in_quoted-RoundOk env buf c pos l p room size pending b'"'
        (subst (λ x. InvAt none x p) (sym here) at) at
  in_context-RoundOk c_whitespace here single plain at =
      in_whitespace-RoundOk env buf c pos l p room size pending here at
  in_context-RoundOk c_entity here single plain at =
      in_entity-RoundOk env buf c pos l p room size pending at.1 at.0 here
  in_context-RoundOk c_comment here single plain at =
      expect-RoundOk env buf c pos l p room size pending at b'-' c_comment_1 tt
  in_context-RoundOk c_comment_1 here single plain at =
      branch c pos p 1 (c == b'-') _ _
        (λ _. to_plain env buf c pos l p room size pending at l.old c_comment_2 tt)
        λ _. stay env buf c pos l p room size pending at (subst Plain (sym here) tt)
  in_context-RoundOk c_comment_2 here single plain at =
      to_plain env buf c pos l p room size pending at l.old
        (if c == b'-' then c_comment_3 else c_comment_1)
        (elim (Bool-cases (c == b'-')) [ inl e ↦ rw e tt | inr e ↦ rw e tt ])
  in_context-RoundOk c_comment_3 here single plain at =
      branch c pos p 1 (not (c == b'>')) _ _ (λ _. (omega arith, refl, refl))
        λ _. to_plain env buf c pos l p room size pending at (pos + 1) c_cdata tt
  in_context-RoundOk c_markup here single plain at =
      in_markup-RoundOk env buf c pos l p room size pending at
  in_context-RoundOk c_markup_1 here single plain at =
      branch c pos p 1 (c == b'>') _ _
        (λ _. to_plain env buf c pos l p room size pending at (pos + 1) c_cdata tt)
        λ _. stay env buf c pos l p room size pending at (subst Plain (sym here) tt)
  in_context-RoundOk c_sect here single plain at =
      expect-RoundOk env buf c pos l p room size pending at b'C' c_sect_cdata tt
  in_context-RoundOk c_sect_cdata here single plain at =
      expect-RoundOk env buf c pos l p room size pending at b'D' c_sect_cdata_1 tt
  in_context-RoundOk c_sect_cdata_1 here single plain at =
      expect-RoundOk env buf c pos l p room size pending at b'A' c_sect_cdata_2 tt
  in_context-RoundOk c_sect_cdata_2 here single plain at =
      expect-RoundOk env buf c pos l p room size pending at b'T' c_sect_cdata_3 tt
  in_context-RoundOk c_sect_cdata_3 here single plain at =
      expect-RoundOk env buf c pos l p room size pending at b'A' c_sect_cdata_4 tt
  in_context-RoundOk c_sect_cdata_4 here single plain at =
      branch c pos p 1 (not (c == b'[')) _ _ (λ _. (omega arith, refl, refl))
        λ _. to_plain env buf c pos l p room size pending at (pos + 1) c_sect_cdata_c tt
  in_context-RoundOk c_sect_cdata_c here single plain at =
      in_sect_cdata_c-RoundOk env buf c pos l p room size pending at here
  in_context-RoundOk c_sect_cdata_e here single plain at =
      in_sect_cdata_e-RoundOk env buf c pos l p room size pending at
  in_context-RoundOk c_sect_cdata_e2 here single plain at =
      in_sect_cdata_e2-RoundOk env buf c pos l p room size pending at here
  in_context-RoundOk c_pi here single plain at =
      branch c pos p 1 (c == b'>') _ _
        (λ _. to_plain env buf c pos l p room size pending at (pos + 1) c_cdata tt)
        λ _. to_plain env buf c pos l p room size pending at (pos + 1) c_pi tt

  pub examine-RoundOk :
      InvAt held p.context p → RoundEnsures c pos p (rank p.context) (examine env buf c pos l p)
  unfolding examine
  examine-RoundOk at =
      branch c pos p (rank p.context) (c == 0 || c == 0xfe || c == 0xff) _ _
        (λ _. (omega arith, refl, refl))
        λ _.
          branch c pos p (rank p.context) (not (p.uni_max == 0)) _ _
            (λ more. utf8_next-then (RoundOk c pos p (rank p.context)) _ c p λ m n k. (
              record {
                room = room;
                size = size;
                at = InvAt-fresh p c p.context held same (inl (ground (arith, more))) at m n k;
              },
              pending,
              refl,
              refl,
              tt,
            ))
            λ one.
              branch c pos p (rank p.context) (not (bit_and c 0x80 == 0)) _ _
                (λ high. utf8_first-RoundOk env buf c pos l p room size pending (λ m n k.
                  InvAt-fresh p c p.context held same (inr (ground (arith, high))) at m n k))
                λ plain.
                  in_context-RoundOk p.context refl (ground (arith, one)) (ground (arith, plain)) at
