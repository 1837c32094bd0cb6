-- ===== src/Sax/Safe/Stack.antt =====
-- The token stack and the attribute array: room is made before anything is written.
use iksemel.Base.{
  ℕ, ◌+◌, ◌-◌, ◌*◌, ◌≤◌, ◌<◌, ◌≡◌, refl, true, ltb, leb, Option, none, some, List, [], ◌∷◌, ◌++◌,
  append_assoc, arith, Bytes, length, length-append, length-take, ◌==◌, Option-cases, inl, inr,
  length-replicate, take, replicate, set, Bool-cases, append-nil, sym,
}
use mathlib.Core.Path.{subst}
use iksemel.Sax.Types.{Env, Parser, Locals, Outcome, ◌>>=◌, iks_ok}
use iksemel.Sax.Token.{
  slice, stack_expand, stack_write, stack_push, stack_push_end, push_pending, end_token, set_att,
  grow_atts, atts_room, call_cdata, flush_cdata, stack_init,
}
use iksemel.Sax.Valid.{PendingAt, AllTerm, AllTerm-take}
use iksemel.Sax.Safe.Ensures.{Ensures, Ensures-bind, Fails}

-- the pending piece of a token
abbrev pub pending_bytes : Bytes → ℕ → Option ℕ → Bytes
pending_bytes buf pos none = []
pending_bytes buf pos (some i) = slice buf i pos

nil_of_length : {A : Type 0} (xs : List A) → length xs ≡ 0 → xs ≡ []
nil_of_length [] h = refl
nil_of_length (x ∷ xs) h = absurd (omega arith)

module _ {U : Type 0} where
  -- `q` is `p` with `bs` pushed, within the size of the stack.
  abbrev pub Pushed : Parser U → Bytes → Parser U → Type 0
  Pushed p bs q =
      (q ≡ record p { stack = p.stack ++ bs; stack_max = q.stack_max })
      × (length q.stack ≤ q.stack_max)

module _ {U : Type 0} (env : Env U) where
  pub stack_push_lem :
      (bs : Bytes) (p : Parser U)
      → length p.stack ≤ p.stack_max
      → Ensures (Fails p) (Pushed p bs) (stack_push env bs p)
  unfolding stack_push stack_expand stack_write
  stack_push_lem bs p h = ground (arith, length-append p.stack bs)

  pub stack_push_end_lem :
      (p : Parser U)
      → length p.stack ≤ p.stack_max
      → Ensures (Fails p) (Pushed p (0 ∷ [])) (stack_push_end env p)
  unfolding stack_push_end stack_expand stack_write
  stack_push_end_lem p h = ground (arith, length-append p.stack (0 ∷ []))

  pub push_pending_lem :
      (buf : Bytes) (pos : ℕ) (o : Option ℕ) (p : Parser U)
      → length p.stack ≤ p.stack_max
      → PendingAt pos o
      → Ensures (Fails p) (Pushed p (pending_bytes buf pos o)) (push_pending env buf pos o p)
  unfolding push_pending
  push_pending_lem buf pos none p h at = (rw append-nil, h)
  push_pending_lem buf pos (some i) p h at = ground (arith, stack_push_lem (slice buf i pos) p h)

  pub end_token_lem :
      (buf : Bytes) (pos : ℕ) (l : Locals) (p : Parser U)
      → length p.stack ≤ p.stack_max
      → PendingAt pos l.stack_old
      → Ensures
          (Fails p)
          (Pushed p (pending_bytes buf pos l.stack_old ++ 0 ∷ []))
          (end_token env buf pos l p)
  unfolding end_token
  end_token_lem buf pos l p h at =
      Ensures-bind (Fails p) (Pushed p (pending_bytes buf pos l.stack_old)) (Pushed p _)
        (push_pending env buf pos l.stack_old p) _ (push_pending_lem buf pos l.stack_old p h at)
        λ q (e, room). ground (
          arith,
          stack_push_end_lem q room,
          append_assoc p.stack (pending_bytes buf pos l.stack_old) (0 ∷ []),
        )

  -- Text changes nothing but the user data.
  pub flush_cdata_lem :
      (buf : Bytes) (pos : ℕ) (l : Locals) (p : Parser U)
      → Ensures
          (Fails p)
          (λ q. q ≡ record p { user_data = q.user_data })
          (flush_cdata env buf pos l p)
  unfolding flush_cdata call_cdata
  flush_cdata_lem buf pos l p = ground arith

  -- The rules for a piece that goes on behind one of these.
  module _ {B : Type 0} (Q : B → Type 0) (f : Parser U → Outcome U B) (p : Parser U) where
    pub end_token-then :
        (buf : Bytes) (pos : ℕ) (l : Locals)
        → length p.stack ≤ p.stack_max
        → PendingAt pos l.stack_old
        → ((t : Bytes) (m : ℕ)
            → length (p.stack ++ (t ++ 0 ∷ [])) ≤ m
            → Ensures
                (Fails p)
                Q
                (f (record p { stack = p.stack ++ (t ++ 0 ∷ []); stack_max = m })))
        → Ensures (Fails p) Q (end_token env buf pos l p >>= f)
    end_token-then buf pos l h at k =
        let t = pending_bytes buf pos l.stack_old in
        Ensures-bind (Fails p) (Pushed p (t ++ 0 ∷ [])) Q (end_token env buf pos l p) f
          (end_token_lem buf pos l p h at)
          λ q (e, room).
            subst (λ x. Ensures (Fails p) Q (f x)) (sym e)
              (k t q.stack_max (subst (λ (x : Parser U). length x.stack ≤ q.stack_max) e room))

    pub call_cdata-then :
        (text : Bytes)
        → ((u : U) → Ensures (Fails p) Q (f (record p { user_data = u })))
        → Ensures (Fails p) Q (call_cdata env text p >>= f)
    unfolding call_cdata
    call_cdata-then text k = elim (Option-cases env.cdata_hook) [
      | inl e ↦ rw e (k p.user_data)
      | inr (hook, e) ↦
          let (code, u) = hook p.user_data text in
          rw e (elim (Bool-cases (code == iks_ok)) [
            | inl good ↦ rw good (k u)
            | inr bad ↦ rw bad (ground arith)
          ])
    ]

    pub flush_cdata-then :
        (buf : Bytes) (pos : ℕ) (l : Locals)
        → ((u : U) → Ensures (Fails p) Q (f (record p { user_data = u })))
        → Ensures (Fails p) Q (flush_cdata env buf pos l p >>= f)
    unfolding flush_cdata
    flush_cdata-then buf pos l k = elim (Bool-cases (ltb l.old pos)) [
      | inl some_text ↦ rw some_text (call_cdata-then (slice buf l.old pos) k)
      | inr no_text ↦ rw no_text (k p.user_data)
    ]

    pub stack_init-then :
        length p.stack ≤ p.stack_max
        → ((m : ℕ) → length p.stack ≤ m → Ensures (Fails p) Q (f (record p { stack_max = m })))
        → Ensures (Fails p) Q (stack_init env p >>= f)
    unfolding stack_init
    stack_init-then room k = elim (Bool-cases (p.stack_max == 0)) [
      | inr made ↦ rw made (k p.stack_max room)
      | inl fresh ↦ rw fresh (elim (Bool-cases (env.malloc 128)) [
        | inr full ↦ rw full (ground arith)
        | inl there ↦
            let empty : p.stack ≡ [] = nil_of_length p.stack (ground arith) in
            rw there (
              subst (λ s. Ensures (Fails p) Q (f (record p { stack = s; stack_max = 128 }))) empty
                (k 128 (ground arith)))
      ])
    ]

    pub set_att-then :
        (i : ℕ) (o : Option ℕ)
        → i < length p.atts
        → Ensures (Fails p) Q (f (record p { atts = set p.atts i o }))
        → Ensures (Fails p) Q (set_att i o p >>= f)
    unfolding set_att
    set_att-then i o lt k = let within : ltb i (length p.atts) ≡ true = ground arith in rw within k

    pub atts_room-then :
        length p.atts ≡ p.attmax * 2
        → p.attcur ≤ length p.atts
        → AllTerm p.stack p.attcur p.atts
        → ((m : ℕ) (os : List (Option ℕ))
            → length os ≡ m * 2
            → p.attcur + 2 < length os
            → AllTerm p.stack p.attcur os
            → Ensures (Fails p) Q (f (record p { attmax = m; atts = os })))
        → Ensures (Fails p) Q (atts_room env p >>= f)
    unfolding atts_room grow_atts
    atts_room-then size cur terms k = elim (Bool-cases (length p.atts == 0)) [
      | inl fresh ↦ rw fresh (elim (Bool-cases (env.malloc 192)) [
        | inr full ↦ rw full (ground arith)
        | inl there ↦
            let start : p.attcur ≡ 0 = ground arith in
            rw there (
              subst
                (λ n.
                  Ensures (Fails p) Q
                    (f (record p { attmax = 12; atts = replicate 24 none; attcur = n })))
                start
                (k 12 (replicate 24 none) refl (omega arith)
                  (subst (λ n. AllTerm p.stack n (replicate 24 none)) (sym start) tt)))
      ])
      | inr made ↦ rw made (elim (Bool-cases (leb ((p.attmax - 1) * 2) p.attcur)) [
        | inr free ↦ rw free (k p.attmax p.atts size (ground arith) terms)
        | inl used ↦ rw used (elim (Bool-cases (env.malloc (16 * (p.attmax + 12)))) [
          | inr full ↦ rw full (ground arith)
          | inl there ↦
              let rest = replicate ((p.attmax + 12) * 2 - p.attcur) none in
              let grown : length (take p.attcur p.atts ++ rest) ≡ (p.attmax + 12) * 2 = omega (
                arith,
                length-append (take p.attcur p.atts) rest,
                length-take p.attcur p.atts,
                length-replicate {A = Option ℕ} ((p.attmax + 12) * 2 - p.attcur) none,
              ) in
              rw there (
                k (p.attmax + 12) (take p.attcur p.atts ++ rest) grown (omega arith)
                  (AllTerm-take p.stack p.attcur p.atts rest terms))
        ])
      ])
    ]
