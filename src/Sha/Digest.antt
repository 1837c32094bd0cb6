-- ===== src/Sha/Digest.antt =====
-- What `iks_sha_hash` computes: SHA-1 of the message, in whatever pieces it comes.
use mathlib.Core.Path.{subst}
use iksemel.Base.{
  ℕ, zero, suc, ◌+◌, ◌-◌, ◌*◌, ◌/◌, ◌%◌, ◌^◌, ◌<◌, ◌≡◌, refl, sym, ap, ◌∙◌, true, false, ◌==◌, List,
  [], ◌∷◌, ◌++◌, Bytes, length, Option, none, some, take, take_all, int_of_size, IsBytes,
  IsBytes-append, length-replicate, replicate, arith, length-append, append_assoc, append-nil,
}
use iksemel.Sha.{Sha, sha_byte, sha_buffer, sha_reset, word_bytes, pad_zeros, sha_finish, sha_hash}
use iksemel.Sha.Spec.{words, fold_words, trailer, sha1}
use iksemel.Sha.Step.{Holds}
use iksemel.Sha.Stream.{next}

-- what a run of bytes leaves
record Fed (s : Sha) (h block : List ℕ) (part : Bytes) (n : ℕ) (bs : Bytes) : Type 0 where
  hash' : List ℕ
  block' : List ℕ
  part' : Bytes
  holds : Holds (sha_buffer s bs) hash' block' part' (n + length bs)
  same :
      (more : Bytes)
      → fold_words h block (words (part ++ (bs ++ more)))
        ≡ fold_words hash' block' (words (part' ++ more))

run :
    (bs : Bytes) (s : Sha) (h block : List ℕ) (part : Bytes) (n : ℕ)
    → IsBytes bs
    → Holds s h block part n
    → Fed s h block part n bs
unfolding sha_buffer
run [] s h block part n small holds = record {
  hash' = h;
  block' = block;
  part' = part;
  holds = let e : n ≡ n + 0 = omega arith in subst (Holds s h block part) e holds;
  same = λ more. refl;
}
run (b ∷ bs) s h block part n (byte, small) holds =
    let x = next s h block n b byte part holds in
    let y = run bs (sha_byte s b) x.hash' x.block' x.part' (n + 1) small x.holds in
    record {
      hash' = y.hash';
      block' = y.block';
      part' = y.part';
      holds =
          let e : n + 1 + length bs ≡ n + length (b ∷ bs) = omega arith in
          subst (Holds (sha_buffer (sha_byte s b) bs) y.hash' y.block' y.part') e y.holds;
      same = λ more. x.same (bs ++ more) ∙ y.same more;
    }

sha_buffer-append : (a b : Bytes) (s : Sha) → sha_buffer s (a ++ b) ≡ sha_buffer (sha_buffer s a) b
unfolding sha_buffer
sha_buffer-append [] b s = refl
sha_buffer-append (x ∷ a) b s = sha_buffer-append a b (sha_byte s x)

-- The zeros end where eight bytes are left of a block.
pad_zeros_lem :
    (k fuel : ℕ) (s : Sha) (h block : List ℕ) (part : Bytes) (n : ℕ)
    → Holds s h block part n
    → k < fuel
    → k < 64
    → (n % 64 + k) % 64 ≡ 56
    → pad_zeros fuel s ≡ some (sha_buffer s (replicate k 0))
unfolding pad_zeros sha_buffer
pad_zeros_lem k zero s h block part n holds enough few e = absurd (omega arith)
pad_zeros_lem zero (suc fuel) s h block part n holds enough few e =
    let t : (s.blen == 56) ≡ true = ground (arith, holds.blen_count) in rw t
pad_zeros_lem (suc k) (suc fuel) s h block part n holds enough few e =
    let x = next s h block n 0 (omega arith) part holds in
    let t : (s.blen == 56) ≡ false = ground (arith, holds.blen_count) in
    rw t (
      pad_zeros_lem k fuel (sha_byte s 0) x.hash' x.block' x.part' (n + 1) x.holds (omega arith)
        (omega arith) (omega arith))

IsBytes-replicate : (k : ℕ) → IsBytes (replicate k 0)
IsBytes-replicate zero = tt
IsBytes-replicate (suc k) = (omega arith, IsBytes-replicate k)

IsBytes-word_bytes : (w : ℕ) → IsBytes (word_bytes w)
IsBytes-word_bytes w = (omega arith, (omega arith, (omega arith, (omega arith, tt))))

IsBytes-trailer : (n : ℕ) → IsBytes (trailer n)
IsBytes-trailer n =
    let high = n * 8 % 2 ^ 64 / 2 ^ 32 in
    let low = n * 8 % 2 ^ 32 in
    let zeros : Bytes = replicate ((119 - n % 64) % 64) 0 in
    (
      omega arith,
      IsBytes-append (zeros ++ word_bytes high) (word_bytes low)
          (IsBytes-append zeros (word_bytes high) (IsBytes-replicate _) (IsBytes-word_bytes high))
          (IsBytes-word_bytes low),
    )

length-trailer : (n : ℕ) → length (trailer n) ≡ 9 + (119 - n % 64) % 64
length-trailer n =
    let high = word_bytes (n * 8 % 2 ^ 64 / 2 ^ 32) in
    let low = word_bytes (n * 8 % 2 ^ 32) in
    let zeros : Bytes = replicate ((119 - n % 64) % 64) 0 in
    let e = length-append (zeros ++ high) low in
    let f = length-append zeros high in
    let g : length zeros ≡ (119 - n % 64) % 64 = length-replicate ((119 - n % 64) % 64) 0 in
    omega arith

sha_finish_lem :
    (s : Sha) (h block : List ℕ) (part : Bytes) (n : ℕ)
    → Holds s h block part n
    → sha_finish s ≡ some (sha_buffer s (trailer n))
unfolding sha_finish sha_buffer
sha_finish_lem s h block part n holds =
    let x = next s h block n 0x80 (omega arith) part holds in
    let k = (119 - n % 64) % 64 in
    let padded =
      pad_zeros_lem k 64 (sha_byte s 0x80) x.hash' x.block' x.part' (n + 1) x.holds (omega arith)
        (omega arith) (omega arith) in
    let high : s.lenhi ≡ n * 8 % 2 ^ 64 / 2 ^ 32 =
      omega (arith, holds.bits, holds.low, holds.high) in
    let low : s.lenlo ≡ n * 8 % 2 ^ 32 = omega (arith, holds.bits, holds.low, holds.high) in
    let zeros : Bytes = replicate k 0 in
    let w = word_bytes (n * 8 % 2 ^ 64 / 2 ^ 32) in
    let v = word_bytes (n * 8 % 2 ^ 32) in
    ap
      (λ (o : Option Sha). elim o as (λ x. Option Sha) [
        | none ↦ none
        | some q ↦ some (sha_buffer q (word_bytes s.lenhi ++ word_bytes s.lenlo))
      ])
      padded
    ∙ (ap (λ t. some (sha_buffer (sha_buffer (sha_byte s 0x80) zeros) t))
          (ap (λ t. word_bytes t ++ word_bytes s.lenlo) high ∙ ap (λ t. w ++ word_bytes t) low)
        ∙ ap some (sym (sha_buffer-append zeros (w ++ v) (sha_byte s 0x80)))
        ∙ ap (λ t. some (sha_buffer (sha_byte s 0x80) t)) (sym (append_assoc zeros w v)))

-- where nothing waits for a word or a block
fold-none :
    (s : Sha) (h block : List ℕ) (part : Bytes) (n : ℕ)
    → Holds s h block part n
    → n % 64 ≡ 0
    → fold_words h block (words (part ++ [])) ≡ s.hash
unfolding fold_words
fold-none s h [] [] n holds e = sym holds.hash
fold-none s h [] (x ∷ part) n holds e = absurd (omega (arith, holds.blen, holds.blen_count))
fold-none s h (w ∷ block) part n holds e = absurd (omega (arith, holds.blen, holds.blen_count))

finished :
    (s : Sha) (h block : List ℕ) (part : Bytes) (n : ℕ)
    → Holds s h block part n
    → (sha_buffer s (trailer n)).hash ≡ fold_words h block (words (part ++ trailer n))
finished s h block part n holds =
    let x = run (trailer n) s h block part n (IsBytes-trailer n) holds in
    let whole : (n + length (trailer n)) % 64 ≡ 0 = omega (arith, length-trailer n) in
    sym (fold-none (sha_buffer s (trailer n)) x.hash' x.block' x.part' _ x.holds whole)
    ∙ sym (x.same [])
    ∙ ap (λ t. fold_words h block (words (part ++ t))) (append-nil (trailer n))

reset-Holds : Holds sha_reset sha_reset.hash [] [] 0
reset-Holds = record {
  hash = refl;
  short = omega arith;
  part_short = omega arith;
  blen = refl;
  blen_count = refl;
  word = 0;
  rest = replicate 79 0;
  buf = refl;
  rest_length = refl;
  part_value = refl;
  low = omega arith;
  high = omega arith;
  bits = refl;
}

-- A client that feeds its pieces with `finish` 0, and then calls with NULL and `finish` 1.
abbrev pub hash_pieces : Sha → List Bytes → Option Sha
hash_pieces s [] = sha_hash s none 0 true
hash_pieces s (piece ∷ pieces) =
    elim (sha_hash s (some piece) (length piece) false) as (λ x. Option Sha) [
      | none ↦ none
      | some q ↦ hash_pieces q pieces
    ]

abbrev pub message : List Bytes → Bytes
message [] = []
message (piece ∷ pieces) = piece ++ message pieces

-- pieces of bytes whose lengths are positive as an `int`
abbrev pub Pieces : List Bytes → Type 0
Pieces [] = Unit
Pieces (piece ∷ pieces) = IsBytes piece × (length piece < 2 ^ 31) × Pieces pieces

IsBytes-message : (pieces : List Bytes) → Pieces pieces → IsBytes (message pieces)
IsBytes-message [] h = tt
IsBytes-message (piece ∷ pieces) (small, short, h) =
    IsBytes-append piece (message pieces) small (IsBytes-message pieces h)

hash_pieces_lem :
    (pieces : List Bytes) (s : Sha)
    → Pieces pieces
    → hash_pieces s pieces ≡ sha_finish (sha_buffer s (message pieces))
unfolding sha_hash sha_buffer
hash_pieces_lem [] s h = refl
hash_pieces_lem (piece ∷ pieces) s (small, short, h) =
    let e : int_of_size (length piece) ≡ length piece = ground arith in
    let f : take (int_of_size (length piece)) piece ≡ piece =
      ap (λ t. take t piece) e ∙ take_all piece in
    ap (λ t. hash_pieces (sha_buffer s t) pieces) f
    ∙ hash_pieces_lem pieces (sha_buffer s piece) h
    ∙ ap sha_finish (sym (sha_buffer-append piece (message pieces) s))

-- Fed a message in pieces of less than 2^31 bytes and then finished, `iks_sha_hash` ends, and the
-- hash is SHA-1 of the message: the padded message, read as words, is folded by eighty rounds whose
-- functions and constants are tables of the round.
pub sha_hash-sha1 :
    (pieces : List Bytes)
    → Pieces pieces
    → (s : Sha) × (hash_pieces sha_reset pieces ≡ some s) × (s.hash ≡ sha1 (message pieces))
sha_hash-sha1 pieces h =
    let m = message pieces in
    let x = run m sha_reset sha_reset.hash [] [] 0 (IsBytes-message pieces h) reset-Holds in
    let n = length m in
    let q = sha_buffer sha_reset m in
    let none_before : 0 + n ≡ n = omega arith in
    let holds = subst (Holds q x.hash' x.block' x.part') none_before x.holds in
    (
      sha_buffer q (trailer n),
      (hash_pieces_lem pieces sha_reset h ∙ sha_finish_lem q x.hash' x.block' x.part' n holds),
      (finished q x.hash' x.block' x.part' n holds ∙ sym (x.same (trailer n))),
    )
