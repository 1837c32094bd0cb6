-- ===== src/Stream/Answer.antt =====
-- The answer of src/stream.c to a SASL challenge: `make_sasl_response` prints it into an area of its
-- own size.
use iksemel.Base.{
  ℕ, zero, suc, ◌+◌, ◌*◌, ◌&&◌, if◌then◌else◌, Option, none, some, [], ◌++◌, ap, ◌∙◌, Bytes, length,
  ◌≡◌, refl, arith, Bool-cases, inl, inr,
}
use iksemel.Utility.Strings.{iks_strlen}
use iksemel.Md5.{md5_new}
use iksemel.Iks.Heap.{Ptr, Run, Heap, ok}
use iksemel.Stream.Types.{StreamData, Conn, Act, return, Outside}
use iksemel.Stream.Sasl.{
  make_cnonce, hex_digits, response_value, response_text, response_element, respond, answer,
  realm_nonce, make_sasl_response,
}
use iksemel.Stream.Bounds.{length-response_text, length-response_value, printed}

-- what a run of `make_cnonce` gives
record Drawn {W : Type 0} (o : Outside W) (count : ℕ) (c : Conn W) (h : Heap) : Type 0 where
  digits : Bytes
  world : W
  run : make_cnonce o count c h ≡ ok (digits, record c { world = world }) h
  size : length digits ≡ count * 8

make_cnonce_lem :
    {W : Type 0} (o : Outside W) (count : ℕ) (c : Conn W) (h : Heap) → Drawn o count c h
unfolding make_cnonce
make_cnonce_lem o zero c h = record { digits = []; world = c.world; run = refl; size = refl }
make_cnonce_lem o (suc n) c h =
    let r = o.rand c.world in
    let d = make_cnonce_lem o n (record c { world = r.1 }) h in
    record {
      digits = hex_digits 8 r.0 [] ++ d.digits;
      world = d.world;
      run = rw (d.run);
      size = omega (arith, d.size);
    }

-- the text that answers, for this challenge of the client's
abbrev pub text_for : {W : Type 0} → StreamData W → Bytes → Bytes → Bytes → Bytes → Bytes → Bytes
text_for d username realm nonce cnonce server =
    response_text username realm nonce cnonce server
      (response_value d.auth_username d.auth_pass d.server (some realm) nonce cnonce)

-- how `make_sasl_response` goes on
pub record Fitting {W : Type 0} (o : Outside W) (c : Conn W) (h : Heap)
    (message username realm nonce server : Bytes) : Type 0 where
  pub cnonce : Bytes
  pub world : W
  pub size : length cnonce ≡ 32
  pub run :
      let text = text_for c.stream username realm nonce cnonce server in
      make_sasl_response o message c h
      ≡ (if o.malloc 120 && o.malloc (length text + 1)
            then response_element o text
            else return none)
          (record c { world = world })
          h

module _ {W : Type 0} (o : Outside W) where
  respond_lem :
      (c : Conn W) (h : Heap) (username realm nonce server cnonce value : Bytes)
      → c.stream.auth_username ≡ some username
      → c.stream.server ≡ some server
      → length cnonce ≡ 32
      → length value ≡ 32
      → let text = response_text username realm nonce cnonce server value in
        respond o (some realm) nonce cnonce value c h
        ≡ (if o.malloc (length text + 1) then response_element o text else return none) c h
  unfolding respond iks_strlen
  respond_lem c h username realm nonce server cnonce value named served size digits =
      let text = response_text username realm nonce cnonce server value in
      let n = length username + length realm + length nonce + length server + 4 * 8 + 136 in
      simp (named, served)
        (printed o.malloc n text (response_element o text) (return none) c h (
          omega
            (arith, size, digits, length-response_text username realm nonce cnonce server value)))

  -- `make_sasl_response` behind the search for the realm and the nonce
  abbrev answer_to : Option (Option Bytes × Bytes) → Conn W → Heap → Run (Ptr × Conn W)
  answer_to none = return none
  answer_to (some r) = answer o r.0 r.1

  make_sasl_response_lem :
      (c : Conn W) (h : Heap) (message : Bytes)
      → make_sasl_response o message c h ≡ answer_to (realm_nonce message c.stream.server) c h
  unfolding make_sasl_response
  make_sasl_response_lem c h message =
      elim (realm_nonce message c.stream.server)
        as (λ r.
          (elim r as (λ x. Act W Ptr) [ none ↦ return none | some r ↦ answer o r.0 r.1 ]) c h
          ≡ answer_to r c h) [ none ↦ refl | some r ↦ refl ]

  -- For a stream with a user's name and a server's, and a message in which a nonce and a realm, or the
  -- server in its place, are found, `make_sasl_response` draws 32 digits for its own challenge and asks for as many bytes as the answer and its NUL take. Where these and the memory
  -- for the hash are granted, it makes the element of that answer, otherwise it returns NULL.
  pub make_sasl_response-Fitting :
      (c : Conn W) (h : Heap) (message username realm nonce server : Bytes)
      → c.stream.auth_username ≡ some username
      → c.stream.server ≡ some server
      → realm_nonce message c.stream.server ≡ some (some realm, nonce)
      → Fitting o c h message username realm nonce server
  unfolding answer md5_new
  make_sasl_response-Fitting c h message username realm nonce server named served parsed =
      let d = make_cnonce_lem o 4 c h in
      let later = record c { world = d.world } in
      let r = respond_lem later h username realm nonce server d.digits _ named served d.size (
        length-response_value c.stream.auth_username c.stream.auth_pass c.stream.server (some realm)
          nonce d.digits) in
      record {
        cnonce = d.digits;
        world = d.world;
        size = d.size;
        run =
            make_sasl_response_lem c h message
            ∙ ap (λ p. answer_to p c h) parsed
            ∙ elim (Bool-cases (o.malloc 120)) [
              | inl g ↦ rw (answer, d.run, md5_new, g) r
              | inr g ↦ rw (answer, d.run, md5_new, g)
            ];
      }
