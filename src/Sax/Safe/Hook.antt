-- ===== src/Sax/Safe/Hook.antt =====
-- The call of the tag hook: the name and the attributes can be read.
use iksemel.Base.{
  ℕ, ◌≡◌, ◌⊎◌, inl, inr, ◌==◌, Bool-cases, Option, Option-cases, none, some, List, if◌then◌else◌,
  arith, Bytes,
}
use iksemel.Sax.Types.{TagType, Env, Parser, Outcome, ok, err, iks_ok, ◌>>=◌}
use iksemel.Sax.Token.{call_tag, tag_name_of, tag_atts_of}
use iksemel.Sax.Valid.{Named, Readable, Ended, read_atts-Ended}
use iksemel.Sax.Safe.Ensures.{Ensures, Fails}

module _ {U : Type 0} (p : Parser U) where
  pub tag_name_of_total : Named p → (b : Bytes) × (tag_name_of p ≡ some b)
  unfolding tag_name_of
  tag_name_of_total (o, named, (b, string, le)) = (b, ground (arith, named, string))

  pub tag_atts_of_total :
      (p.attcur ≡ 0) ⊎ Ended p.stack p.attcur p.atts
      → (a : Option (List Bytes)) × (tag_atts_of p ≡ some a)
  unfolding tag_atts_of
  tag_atts_of_total h = elim (Bool-cases (p.attcur == 0)) [
    | inl start ↦ (none, rw start)
    | inr more ↦ elim h [
      | inl start ↦ absurd (ground arith)
      | inr ended ↦
          let (ss, read) = read_atts-Ended p.stack p.attcur p.atts ended in
          (some ss, ground (arith, read))
    ]
  ]

call_tag_eq :
    {U : Type 0} (env : Env U) (p : Parser U) {b : Bytes} {a : Option (List Bytes)}
    {hook : U → Bytes → Option (List Bytes) → TagType → ℕ × U}
    → tag_name_of p ≡ some b
    → tag_atts_of p ≡ some a
    → env.tag_hook ≡ some hook
    → call_tag env p ≡ (
        if (hook p.user_data b a p.tagtype).0 == iks_ok
        then ok (record p { user_data = (hook p.user_data b a p.tagtype).1 })
        else err
            (hook p.user_data b a p.tagtype).0
            (record p { user_data = (hook p.user_data b a p.tagtype).1 }))
unfolding call_tag
call_tag_eq env p n r e = ground arith

module _ {U : Type 0} (env : Env U) {B : Type 0} (Q : B → Type 0) (f : Parser U → Outcome U B)
    (p : Parser U) where
  pub call_tag-then :
      Readable p
      → ((u : U) → Ensures (Fails p) Q (f (record p { user_data = u })))
      → Ensures (Fails p) Q (call_tag env p >>= f)
  unfolding call_tag
  call_tag-then (name, atts) k = elim (Option-cases env.tag_hook) [
    | inl e ↦ rw e (k p.user_data)
    | inr (hook, e) ↦
        let (b, named) = tag_name_of_total p name in
        let (a, read) = tag_atts_of_total p atts in
        let (code, u) = hook p.user_data b a p.tagtype in
        rw (call_tag_eq env p named read e) (elim (Bool-cases (code == iks_ok)) [
          | inl good ↦ rw good (k u)
          | inr bad ↦ rw bad (ground arith)
        ])
  ]
