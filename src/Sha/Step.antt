-- ===== src/Sha/Step.antt =====
-- One byte in the buffer of src/sha.c: the words that are there, and the one that is begun.
use iksemel.Base.{
  ℕ, zero, suc, ◌+◌, ◌-◌, ◌*◌, ◌/◌, ◌%◌, ◌^◌, ◌≤◌, ◌<◌, ◌≡◌, ◌≢◌, refl, sym, ap, ◌∙◌, bit_or, ltb,
  if◌then◌else◌, List, [], ◌∷◌, ◌++◌, Bytes, length, get_or, set, arith, length-append,
  append_assoc, append-nil,
}
use iksemel.Base.Bits.{bit_or_disjoint}
use iksemel.Sha.{Sha, srl, add, expand, regs_of, all_rounds, sha_calculate, sha_byte}
use iksemel.Sha.Rounds.{all_rounds-rounds}
use iksemel.Sha.Spec.{value, next_word, schedule, compress, add_regs}

module _ {ℓ} {A : Type ℓ} where
  get_or-append :
      (xs ys : List A) (i : ℕ) (d : A) → i < length xs → get_or (xs ++ ys) i d ≡ get_or xs i d
  get_or-append [] ys i d h = absurd (omega arith)
  get_or-append (x ∷ xs) ys zero d h = refl
  get_or-append (x ∷ xs) ys (suc i) d h = get_or-append xs ys i d (omega arith)

  get_or-here : (xs ys : List A) (x d : A) → get_or (xs ++ x ∷ ys) (length xs) d ≡ x
  get_or-here [] ys x d = refl
  get_or-here (y ∷ xs) ys x d = get_or-here xs ys x d

  set-here : (xs ys : List A) (x y : A) → set (xs ++ x ∷ ys) (length xs) y ≡ xs ++ y ∷ ys
  set-here [] ys x y = refl
  set-here (z ∷ xs) ys x y = ap (λ t. z ∷ t) (set-here xs ys x y)

-- The words behind a block do not matter.
expand-schedule :
    (n : ℕ) (ws rest : List ℕ)
    → 16 ≤ length ws
    → length rest ≡ n
    → expand n (length ws) (ws ++ rest) ≡ schedule n ws
unfolding expand schedule srl
expand-schedule zero ws [] h e = append-nil ws
expand-schedule zero ws (x ∷ rest) h e = absurd (omega arith)
expand-schedule (suc n) ws [] h e = absurd (omega arith)
expand-schedule (suc n) ws (x ∷ rest) h e =
    let i = length ws in
    let next = next_word ws in
    let g3 = get_or-append ws (x ∷ rest) (i - 3) 0 (omega arith) in
    let g8 = get_or-append ws (x ∷ rest) (i - 8) 0 (omega arith) in
    let g14 = get_or-append ws (x ∷ rest) (i - 14) 0 (omega arith) in
    let g16 = get_or-append ws (x ∷ rest) (i - 16) 0 (omega arith) in
    let l : length (ws ++ next ∷ []) ≡ i + 1 = length-append ws (next ∷ []) in
    let ih = expand-schedule n (ws ++ next ∷ []) rest (omega arith) (omega arith) in
    rw (g3, g8, g14, g16, set-here ws rest x next)
      (ap (λ t. expand n (i + 1) t) (sym (append_assoc ws (next ∷ []) rest))
        ∙ ap (λ t. expand n t ((ws ++ next ∷ []) ++ rest)) (sym l)
        ∙ ih)

pub length-schedule : (n : ℕ) (ws : List ℕ) → length (schedule n ws) ≡ length ws + n
unfolding schedule
length-schedule zero ws = omega arith
length-schedule (suc n) ws =
    omega (arith, length-schedule n (ws ++ next_word ws ∷ []), length-append ws (next_word ws ∷ []))

-- `sha_calculate` on a full block
pub sha_calculate_lem :
    (s : Sha) (block rest : List ℕ)
    → length block ≡ 16
    → length rest ≡ 64
    → s.buf ≡ block ++ rest
    → ((sha_calculate s).hash ≡ compress s.hash block) × ((sha_calculate s).buf ≡ schedule 64 block)
unfolding sha_calculate compress
sha_calculate_lem s block rest e f g =
    let same : expand 64 16 s.buf ≡ schedule 64 block =
      ap (λ t. expand 64 16 t) g
      ∙ ap (λ t. expand 64 t (block ++ rest)) (sym e)
      ∙ expand-schedule 64 block rest (omega arith) f in
    (
      ap (λ t. add_regs s.hash (all_rounds t (regs_of s.hash))) same
          ∙ ap (add_regs s.hash) (all_rounds-rounds (schedule 64 block) (regs_of s.hash)),
      same,
    )

-- What the counters and the buffer hold when `n` bytes have come, `block` are the full words and
-- `part` the bytes of the next one.
pub record Holds (s : Sha) (h block : List ℕ) (part : Bytes) (n : ℕ) : Type 0 where
  pub hash : s.hash ≡ h
  pub short : length block < 16
  pub part_short : length part < 4
  pub blen : s.blen ≡ 4 * length block + length part
  pub blen_count : s.blen ≡ n % 64
  pub word : ℕ
  pub rest : List ℕ
  pub buf : s.buf ≡ block ++ word ∷ rest
  pub rest_length : length rest + length block ≡ 79
  pub part_value : word % 2 ^ (8 * length part) ≡ value part 0
  pub low : s.lenlo < 2 ^ 32
  pub high : s.lenhi < 2 ^ 32
  pub bits : s.lenhi * 2 ^ 32 + s.lenlo ≡ n * 8 % 2 ^ 64

-- the parser's word with one byte more
abbrev pub shifted : ℕ → ℕ → ℕ
shifted w b = bit_or (w * 2 ^ 8 % 2 ^ 32) b

pub shifted_lem : (w b : ℕ) → b < 256 → shifted w b ≡ w % 2 ^ 24 * 2 ^ 8 + b
shifted_lem w b h =
    let e : w * 2 ^ 8 % 2 ^ 32 ≡ w % 2 ^ 24 * 2 ^ 8 = omega arith in
    ap (λ t. bit_or t b) e ∙ bit_or_disjoint 8 (w % 2 ^ 24) b h

-- the counter of the bits in two words
pub bits_lem :
    (lo hi n : ℕ)
    → lo < 2 ^ 32
    → hi < 2 ^ 32
    → hi * 2 ^ 32 + lo ≡ n * 8 % 2 ^ 64
    → add hi (if ltb (add lo 8) 8 then 1 else 0) * 2 ^ 32 + add lo 8 ≡ (n + 1) * 8 % 2 ^ 64
bits_lem lo hi n hl hh e = ground arith

-- the buffer with the byte, in front of a block's end
abbrev pub stored : Sha → ℕ → Sha
stored s b =
    let i = s.blen / 4 in
    record s { buf = set s.buf i (shifted (get_or s.buf i 0) b); blen = s.blen + 1 }

abbrev pub counted : Sha → Sha
counted q =
    let lo = add q.lenlo 8 in
    record q { lenlo = lo; lenhi = add q.lenhi (if ltb lo 8 then 1 else 0) }

module _ (s : Sha) (h block : List ℕ) (part : Bytes) (n b : ℕ) (byte : b < 256)
    (holds : Holds s h block part n) where
  pub stored-buf : (stored s b).buf ≡ block ++ shifted holds.word b ∷ holds.rest
  stored-buf =
      let i : s.blen / 4 ≡ length block = omega (arith, holds.blen, holds.part_short) in
      rw (i, holds.buf, get_or-here block holds.rest holds.word 0)
        (set-here block holds.rest holds.word (shifted holds.word b))

  pub inside : (s.blen + 1) % 64 ≢ 0 → sha_byte s b ≡ counted (stored s b)
  unfolding sha_byte
  inside ne = ground arith

  pub at_end :
      (s.blen + 1) % 64 ≡ 0
      → sha_byte s b ≡ counted (record (sha_calculate (stored s b)) { blen = 0 })
  unfolding sha_byte
  at_end e = ground arith
