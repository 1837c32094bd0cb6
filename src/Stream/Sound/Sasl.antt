-- ===== src/Stream/Sound/Sasl.antt =====
-- The SASL answers of src/stream.c keep a stream sound.
use iksemel.Base.{ℕ, zero, suc, Option, none, some, Bytes, arith}
use iksemel.Iks.Heap.{Ptr}
use iksemel.Stream.Types.{
  SaslType, iks_sasl_plain, iks_sasl_digest_md5, other_sasl, StreamData, Act, Outside, ◌>>◌, ◌>>=◌,
}
use iksemel.Stream.Leads.{Leads, Leads-bind}
use iksemel.Stream.Sasl.{
  make_cnonce, encode, response_element, answer, make_sasl_response, reply, iks_sasl_challenge,
  put_plain, put_digest, new_auth, send_auth, iks_start_sasl,
}
use iksemel.Stream.Sound.{Sound, iks_send-Sound}

module _ {W : Type 0} (o : Outside W) (P : StreamData W → Type 0) where
  make_cnonce-Leads : (n : ℕ) → Leads P P (make_cnonce o n)
  unfolding make_cnonce
  make_cnonce-Leads zero = λ c h p. p
  make_cnonce-Leads (suc n) = λ c h p. grind (arith, make_cnonce-Leads n)

  encode-Leads : (area : Bytes) (len : ℕ) → Leads P P (encode o area len)
  unfolding encode
  encode-Leads area len = λ c h p. ground arith

  response_element-Leads : (response : Bytes) → Leads P P (response_element o response)
  unfolding response_element
  response_element-Leads response = λ c h p. grind (arith, encode-Leads)

  answer-Leads : (realm : Option Bytes) (nonce : Bytes) → Leads P P (answer o realm nonce)
  unfolding answer
  answer-Leads realm nonce = λ c h p. grind (arith, make_cnonce-Leads, response_element-Leads)

  make_sasl_response-Leads : (message : Bytes) → Leads P P (make_sasl_response o message)
  unfolding make_sasl_response
  make_sasl_response-Leads message = λ c h p. grind (arith, answer-Leads)

module _ {W : Type 0} (o : Outside W) (fuel : ℕ) where
  reply-Sound : (x : Ptr) → Leads Sound Sound (reply o fuel x)
  unfolding reply
  reply-Sound none = λ c h s. s
  reply-Sound (some x) = λ c h s. grind (arith, iks_send-Sound o)

  pub iks_sasl_challenge-Sound : (x : Ptr) → Leads Sound Sound (iks_sasl_challenge o fuel x)
  unfolding iks_sasl_challenge
  iks_sasl_challenge-Sound x = λ c h s. grind (arith, reply-Sound, make_sasl_response-Leads o Sound)

  put_plain-Leads :
      (x : Ptr) (username pass : Bytes) → Leads Sound Sound (put_plain o fuel x username pass)
  unfolding put_plain
  put_plain-Leads x username pass = λ c h s. grind (arith, encode-Leads o Sound)

  send_auth-Sound : (x : Ptr) → Leads Sound Sound (send_auth o fuel x)
  unfolding send_auth
  send_auth-Sound x = λ c h s. grind (arith, iks_send-Sound o)

  new_auth-Leads : Leads (Sound {W = W}) Sound (new_auth fuel)
  unfolding new_auth
  new_auth-Leads = λ c h s. ground arith

  put_digest-Sound :
      (x : Ptr) (username pass : Bytes)
      → Leads (Sound {W = W}) Sound (put_digest fuel x username pass)
  unfolding put_digest
  put_digest-Sound x username pass = λ c h s. ground arith

  -- the element is made, filled and sent
  sent-Sound :
      (fill : Ptr → Act W (Unit {0}))
      → ((x : Ptr) → Leads Sound Sound (fill x))
      → Leads Sound Sound (new_auth fuel >>= λ x. fill x >> send_auth o fuel x)
  sent-Sound fill filled =
      Leads-bind Sound Sound Sound (new_auth fuel) (λ x. fill x >> send_auth o fuel x)
        new_auth-Leads
        λ x.
          Leads-bind Sound Sound Sound (fill x) (λ _. send_auth o fuel x) (filled x)
            λ _. send_auth-Sound x

  pub iks_start_sasl-Sound :
      (type : SaslType) (username pass : Bytes)
      → Leads Sound Sound (iks_start_sasl o fuel type username pass)
  unfolding iks_start_sasl
  iks_start_sasl-Sound iks_sasl_plain username pass =
      sent-Sound (λ x. put_plain o fuel x username pass) λ x. put_plain-Leads x username pass
  iks_start_sasl-Sound iks_sasl_digest_md5 username pass =
      sent-Sound (λ x. put_digest fuel x username pass) λ x. put_digest-Sound x username pass
  iks_start_sasl-Sound (other_sasl n) username pass = λ c h s. ground arith
