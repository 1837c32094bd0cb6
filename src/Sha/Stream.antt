-- ===== src/Sha/Stream.antt =====
-- The bytes of src/sha.c one after the other, against the fold over the words.
use mathlib.Core.Path.{subst}
use iksemel.Base.{
  ℕ, suc, ◌+◌, ◌-◌, ◌*◌, ◌%◌, ◌^◌, ◌<◌, ◌≡◌, refl, sym, ap, ◌∙◌, true, false, ◌==◌, List, [], ◌∷◌,
  ◌++◌, Bytes, length, arith, length-append, append_assoc, Bool-cases, inl, inr,
}
use iksemel.Sha.{Sha, sha_calculate, sha_byte}
use iksemel.Sha.Spec.{value, words, schedule, compress, fold_words}
use iksemel.Sha.Step.{
  Holds, shifted, shifted_lem, bits_lem, stored, stored-buf, inside, at_end, sha_calculate_lem,
  length-schedule,
}

-- What a byte leaves: the fold over the message from here on has not changed.
pub record Next (s : Sha) (h block : List ℕ) (part : Bytes) (n b : ℕ) : Type 0 where
  pub hash' : List ℕ
  pub block' : List ℕ
  pub part' : Bytes
  pub holds : Holds (sha_byte s b) hash' block' part' (n + 1)
  pub same :
      (more : Bytes)
      → fold_words h block (words (part ++ (b ∷ more)))
        ≡ fold_words hash' block' (words (part' ++ more))

uncons :
    {A : Type 0} (xs : List A) (n : ℕ)
    → length xs ≡ suc n
    → (x : A) × ((ys : List A) × (xs ≡ x ∷ ys) × (length ys ≡ n))
uncons [] n e = absurd (omega arith)
uncons (x ∷ xs) n e = (x, (xs, refl, omega arith))

-- how the fold takes a word
fold-inside :
    (h block : List ℕ) (w : ℕ) (ws : List ℕ)
    → length block < 15
    → fold_words h block (w ∷ ws) ≡ fold_words h (block ++ w ∷ []) ws
unfolding fold_words
fold-inside h block w ws few =
    let e : (length block == 15) ≡ false = ground arith in rw (fold_words, e)

fold-full :
    (h block : List ℕ) (w : ℕ) (ws : List ℕ)
    → length block ≡ 15
    → fold_words h block (w ∷ ws) ≡ fold_words (compress h (block ++ w ∷ [])) [] ws
unfolding fold_words
fold-full h block w ws e = let t : (length block == 15) ≡ true = ground arith in rw (fold_words, t)

module _ (s : Sha) (h block : List ℕ) (n b : ℕ) (byte : b < 256) where
  -- a byte that does not complete a word
  begun :
      (part : Bytes) (holds : Holds s h block part n)
      → length part < 3
      → shifted holds.word b % 2 ^ (8 * length (part ++ b ∷ [])) ≡ value (part ++ b ∷ []) 0
      → Next s h block part n b
  begun part holds few good =
      let l = length-append part (b ∷ []) in
      let st =
        inside s h block part n b byte holds
          (omega (arith, holds.blen, holds.blen_count, holds.short)) in
      record {
        hash' = h;
        block' = block;
        part' = part ++ b ∷ [];
        holds =
            subst (λ q. Holds q h block (part ++ b ∷ []) (n + 1)) (sym st)
              (record {
                hash = holds.hash;
                short = holds.short;
                part_short = omega arith;
                blen = omega (arith, holds.blen);
                blen_count = omega (arith, holds.blen, holds.blen_count, holds.short);
                word = shifted holds.word b;
                rest = holds.rest;
                buf = stored-buf s h block part n b byte holds;
                rest_length = holds.rest_length;
                part_value = good;
                low = omega arith;
                high = omega arith;
                bits = bits_lem s.lenlo s.lenhi n holds.low holds.high holds.bits;
              });
        same =
            λ more. ap (λ t. fold_words h block (words t)) (sym (append_assoc part (b ∷ []) more));
      }

  module _ (x y z : ℕ) (holds : Holds s h block (x ∷ y ∷ z ∷ []) n) where
    abbrev complete : ℕ
    complete = value (x ∷ y ∷ z ∷ b ∷ []) 0

    complete-buf : (stored s b).buf ≡ (block ++ complete ∷ []) ++ holds.rest
    complete-buf =
        let w : shifted holds.word b ≡ complete =
          omega (arith, shifted_lem holds.word b byte, holds.part_value) in
        stored-buf s h block (x ∷ y ∷ z ∷ []) n b byte holds
        ∙ ap (λ t. block ++ (t ∷ holds.rest)) w
        ∙ sym (append_assoc block (complete ∷ []) holds.rest)

    -- the last byte of a word inside a block
    filled : length block < 15 → Next s h block (x ∷ y ∷ z ∷ []) n b
    filled few =
        let (r, (rs, e, l)) =
          uncons holds.rest (78 - length block) (omega (arith, holds.rest_length)) in
        let st =
          inside s h block (x ∷ y ∷ z ∷ []) n b byte holds
            (omega (arith, holds.blen, holds.blen_count)) in
        let lb = length-append block (complete ∷ []) in
        record {
          hash' = h;
          block' = block ++ complete ∷ [];
          part' = [];
          holds =
              subst (λ q. Holds q h (block ++ complete ∷ []) [] (n + 1)) (sym st)
                (record {
                  hash = holds.hash;
                  short = omega arith;
                  part_short = omega arith;
                  blen = omega (arith, holds.blen);
                  blen_count = omega (arith, holds.blen, holds.blen_count);
                  word = r;
                  rest = rs;
                  buf = complete-buf ∙ ap (λ t. (block ++ complete ∷ []) ++ t) e;
                  rest_length = omega arith;
                  part_value = omega arith;
                  low = omega arith;
                  high = omega arith;
                  bits = bits_lem s.lenlo s.lenhi n holds.low holds.high holds.bits;
                });
          same = λ more. fold-inside h block complete (words more) few;
        }

    -- the last byte of a block
    full : length block ≡ 15 → Next s h block (x ∷ y ∷ z ∷ []) n b
    unfolding sha_calculate
    full e =
        let st =
          at_end s h block (x ∷ y ∷ z ∷ []) n b byte holds
            (omega (arith, holds.blen, holds.blen_count)) in
        let lb = length-append block (complete ∷ []) in
        let (hashed, buffer) =
          sha_calculate_lem (stored s b) (block ++ complete ∷ []) holds.rest (omega arith)
            (omega (arith, holds.rest_length)) complete-buf in
        let ls = length-schedule 64 (block ++ complete ∷ []) in
        let (r, (rs, e', l)) = uncons (schedule 64 (block ++ complete ∷ [])) 79 (omega arith) in
        let h' = compress h (block ++ complete ∷ []) in
        record {
          hash' = h';
          block' = [];
          part' = [];
          holds =
              subst (λ q. Holds q h' [] [] (n + 1)) (sym st)
                (record {
                  hash = hashed ∙ ap (λ t. compress t (block ++ complete ∷ [])) holds.hash;
                  short = omega arith;
                  part_short = omega arith;
                  blen = refl;
                  blen_count = omega (arith, holds.blen, holds.blen_count);
                  word = r;
                  rest = rs;
                  buf = buffer ∙ e';
                  rest_length = omega arith;
                  part_value = omega arith;
                  low = omega arith;
                  high = omega arith;
                  bits = bits_lem s.lenlo s.lenhi n holds.low holds.high holds.bits;
                });
          same = λ more. fold-full h block complete (words more) e;
        }

  pub next : (part : Bytes) → Holds s h block part n → Next s h block part n b
  next [] holds = begun [] holds (omega arith) (omega (arith, shifted_lem holds.word b byte))
  next (x ∷ []) holds =
      begun (x ∷ []) holds (omega arith)
        (omega (arith, shifted_lem holds.word b byte, holds.part_value))
  next (x ∷ y ∷ []) holds =
      begun (x ∷ y ∷ []) holds (omega arith)
        (omega (arith, shifted_lem holds.word b byte, holds.part_value))
  next (x ∷ y ∷ z ∷ []) holds = elim (Bool-cases (length block == 15)) [
    | inl e ↦ full x y z holds (ground (arith, e))
    | inr ne ↦ filled x y z holds (ground (arith, ne, holds.short))
  ]
  next (x ∷ y ∷ z ∷ t ∷ part) holds = absurd (omega (arith, holds.part_short))
