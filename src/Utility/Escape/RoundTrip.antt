-- ===== src/Utility/Escape/RoundTrip.antt =====
-- Escaping: the size that is allocated fits, and `iks_unescape` reads back what `iks_escape` wrote.
use mathlib.Core.Path.{subst}
use iksemel.Base.{
  NoNul, strlen-NoNul, c_string-NoNul, NoNul-append, ℕ, zero, suc, ◌+◌, ◌-◌, ◌≤◌, ◌<◌, ◌≡◌, ◌≢◌,
  ◌*◌, ◌%◌, ◌^◌, ltb, leb, sym, refl, ap, ◌∙◌, Bool, true, false, ◌==◌, if◌then◌else◌, some, [],
  ◌∷◌, ◌++◌, append_assoc, arith, Bytes, codes, length, length-append, drop, take-append, eq_bytes,
  c_string, Bool-cases, inl, inr,
}
use iksemel.Utility.Escape.{
  has_char, no_len, text_len, escape_byte, escape_bytes, extra_byte, escaped_len, as_size, escaped,
  in_area, iks_escape, unescape_at, unescape_bytes, iks_unescape,
}

length-escape_byte : (c : ℕ) → length (escape_byte c) ≡ 1 + extra_byte c
unfolding escape_byte extra_byte
length-escape_byte c = ground arith

-- the size that the first loop counts, where nothing wraps
abbrev grown : ℕ → Bytes → ℕ
grown nlen [] = nlen
grown nlen (c ∷ text) = grown (nlen + extra_byte c) text

extra_byte-le : (c : ℕ) → extra_byte c ≤ 5
unfolding extra_byte
extra_byte-le c = ground arith

escaped_len-grown :
    (n : ℕ) (text : Bytes) → n + 5 * length text < 2 ^ 31 → escaped_len n text ≡ grown n text
unfolding escaped_len
escaped_len-grown n [] h = refl
escaped_len-grown n (c ∷ text) h =
    let few = extra_byte-le c in
    let e : (n + extra_byte c) % 2 ^ 32 ≡ n + extra_byte c = omega arith in
    rw e (escaped_len-grown (n + extra_byte c) text (omega arith))

-- It is the size that the second one fills.
grown-length : (n : ℕ) (text : Bytes) → grown n text + length text ≡ n + length (escape_bytes text)
unfolding escape_bytes
grown-length n [] = omega arith
grown-length n (c ∷ text) = omega (
  arith,
  grown-length (n + extra_byte c) text,
  length-escape_byte c,
  length-append (escape_byte c) (escape_bytes text),
)

-- one round of the loop, with the length that is left named by its sum
unescape_round :
    (b step c : ℕ) (rest after : Bytes) (fuel m n : ℕ)
    → unescape_at c rest ≡ (b, step)
    → m ≡ step + n
    → 0 < step
    → drop step (c ∷ rest) ≡ after
    → unescape_bytes (suc fuel) m (c ∷ rest) ≡ b ∷ unescape_bytes fuel n after
unfolding unescape_bytes
unescape_round b step c rest after fuel zero n at sum pos e = absurd (omega arith)
unescape_round b step c rest after fuel (suc m) n at sum pos e =
    let left : suc m - step ≡ n = omega arith in rw (at, left, e)

unescape_at_names :
    (rest : Bytes)
    → (unescape_at b'&' (codes "amp;" ++ rest) ≡ (b'&', 5))
      × (unescape_at b'&' (codes "apos;" ++ rest) ≡ (0x27, 6))
      × (unescape_at b'&' (codes "quot;" ++ rest) ≡ (b'"', 6))
      × (unescape_at b'&' (codes "lt;" ++ rest) ≡ (b'<', 4))
      × (unescape_at b'&' (codes "gt;" ++ rest) ≡ (b'>', 4))
unfolding unescape_at eq_bytes
unescape_at_names rest = (refl, refl, refl, refl, refl)

unescape_at_plain : (c : ℕ) (rest : Bytes) → c ≢ b'&' → unescape_at c rest ≡ (c, 1)
unfolding unescape_at
unescape_at_plain c rest h = ground arith

-- The loop reads one escaped byte in one round.
unescape_bytes-escape_byte :
    (c : ℕ) (rest : Bytes) (fuel n : ℕ)
    → unescape_bytes (suc fuel) (length (escape_byte c) + n) (escape_byte c ++ rest)
      ≡ c ∷ unescape_bytes fuel n rest
unfolding escape_byte
unescape_bytes-escape_byte c rest fuel n =
    let (amp, apos, quot, lt, gt) = unescape_at_names rest in
    by_test b'&' (codes "&amp;") _
      (λ e. rw e (unescape_round b'&' 5 b'&' _ rest fuel _ n amp refl (omega arith) refl))
      λ ne.
        by_test 0x27 (codes "&apos;") _
          (λ e. rw e (unescape_round 0x27 6 b'&' _ rest fuel _ n apos refl (omega arith) refl))
          λ _.
            by_test b'"' (codes "&quot;") _
              (λ e. rw e (unescape_round b'"' 6 b'&' _ rest fuel _ n quot refl (omega arith) refl))
              λ _.
                by_test b'<' (codes "&lt;") _
                  (λ e.
                    rw e (unescape_round b'<' 4 b'&' _ rest fuel _ n lt refl (omega arith) refl))
                  λ _.
                    by_test b'>' (codes "&gt;") _
                      (λ e.
                        rw e
                          (unescape_round b'>' 4 b'&' _ rest fuel _ n gt refl (omega arith) refl))
                      λ _.
                        unescape_round c 1 c rest rest fuel _ n (unescape_at_plain c rest ne) refl
                          (omega arith) refl
  where
    Reads : Bytes → Type 0
    Reads e = unescape_bytes (suc fuel) (length e + n) (e ++ rest) ≡ c ∷ unescape_bytes fuel n rest

    by_test :
        (d : ℕ) (e e' : Bytes)
        → (c ≡ d → Reads e)
        → (c ≢ d → Reads e')
        → Reads (if c == d then e else e')
    by_test d e e' h k = elim (Bool-cases (c == d)) [
      | inl same ↦ rw same (h (ground arith))
      | inr other ↦ rw other (k (ground arith))
    ]

pub unescape_bytes-escape_bytes :
    (text rest : Bytes) (fuel : ℕ)
    → length text ≤ fuel
    → unescape_bytes fuel (length (escape_bytes text)) (escape_bytes text ++ rest) ≡ text
unfolding escape_bytes
unescape_bytes-escape_bytes [] rest zero h = unfold unescape_bytes in refl
unescape_bytes-escape_bytes [] rest (suc fuel) h = unfold unescape_bytes in refl
unescape_bytes-escape_bytes (c ∷ text) rest zero h = absurd (omega arith)
unescape_bytes-escape_bytes (c ∷ text) rest (suc fuel) h =
    rw
      (
        length-append (escape_byte c) (escape_bytes text),
        append_assoc (escape_byte c) (escape_bytes text) rest,
      )
      (unescape_bytes-escape_byte c (escape_bytes text ++ rest) fuel (length (escape_bytes text))
        ∙ ap (λ t. c ∷ t) (unescape_bytes-escape_bytes text rest fuel (omega arith)))

NoNul-escape_byte : (c : ℕ) → c ≢ 0 → NoNul (escape_byte c)
unfolding escape_byte
NoNul-escape_byte c ne = ground arith

pub NoNul-escape_bytes : (text : Bytes) → NoNul text → NoNul (escape_bytes text)
unfolding escape_bytes
NoNul-escape_bytes [] h = tt
NoNul-escape_bytes (c ∷ text) (ne, h) =
    NoNul-append (escape_byte c) (escape_bytes text) (NoNul-escape_byte c ne)
      (NoNul-escape_bytes text h)

grown-le : (n : ℕ) (text : Bytes) → n ≤ grown n text
grown-le n [] = omega arith
grown-le n (c ∷ text) = omega (arith, grown-le (n + extra_byte c) text)

-- A byte that grows by nothing stays as it is.
escape_byte_plain : (c : ℕ) → extra_byte c ≡ 0 → escape_byte c ≡ c ∷ []
unfolding escape_byte extra_byte
escape_byte_plain c h = ground arith

-- `nlen` is the length of the text only where escaping changes nothing.
escape_bytes-grown : (text : Bytes) (n : ℕ) → grown n text ≡ n → escape_bytes text ≡ text
unfolding escape_bytes
escape_bytes-grown [] n h = refl
escape_bytes-grown (c ∷ text) n h =
    let none_more : extra_byte c ≡ 0 = omega (arith, grown-le (n + extra_byte c) text) in
    let same : n + extra_byte c ≡ n = omega arith in
    rw (escape_byte_plain c none_more)
      (ap (λ t. c ∷ t) (escape_bytes-grown text n (subst (λ m. grown m text ≡ n) same h)))

-- An escaped byte has a `&`, or is the byte.
escape_byte_amp :
    (c : ℕ) (after : Bytes)
    → c ≢ 0
    → has_char b'&' (escape_byte c ++ after) ≡ false
    → (escape_byte c ≡ c ∷ []) × (has_char b'&' after ≡ false)
unfolding escape_byte has_char
escape_byte_amp zero after ne h = absurd (ne refl)
escape_byte_amp (suc c) after ne h = ground arith

-- An escaped text without `&` is the text.
escape_bytes_plain :
    (text rest : Bytes)
    → NoNul text
    → has_char b'&' (escape_bytes text ++ 0 ∷ rest) ≡ false
    → escape_bytes text ≡ text
unfolding escape_bytes
escape_bytes_plain [] rest h k = refl
escape_bytes_plain (c ∷ text) rest (ne, h) k =
    let (same, after) = escape_byte_amp c (escape_bytes text ++ 0 ∷ rest) ne (
      subst (λ t. has_char b'&' t ≡ false)
        (append_assoc (escape_byte c) (escape_bytes text) (0 ∷ rest)) k) in
    rw same (ap (λ t. c ∷ t) (escape_bytes_plain text rest h after))

as_size-small : (n : ℕ) → n < 2 ^ 31 → as_size n ≡ n
unfolding as_size
as_size-small n h = ground arith

wrap-small : (n : ℕ) → n < 2 ^ 31 → n % 2 ^ 32 ≡ n
wrap-small n h = omega arith

escape_bytes-le : (text : Bytes) → length (escape_bytes text) ≤ 6 * length text
unfolding escape_bytes
escape_bytes-le [] = omega arith
escape_bytes-le (c ∷ text) = omega (
  arith,
  escape_bytes-le text,
  extra_byte-le c,
  length-escape_byte c,
  length-append (escape_byte c) (escape_bytes text),
)

-- the area is exactly as large as what is written
in_area_lem :
    (bytes : Bytes) (n : ℕ)
    → n ≡ length bytes
    → n < 2 ^ 31
    → in_area (n + 1) bytes ≡ escaped (bytes ++ 0 ∷ [])
in_area_lem bytes n e h =
    let fits : leb (length bytes + 1) (n + 1) ≡ true = ground arith in
    let short : ltb (length bytes) (2 ^ 31) ≡ true = ground arith in rw (fits, short)

module _ (alloc : ℕ → Bool) (enough : (n : ℕ) → alloc n ≡ true) (text : Bytes)
    (strict : NoNul text) where
  -- The area that `iks_escape` returns for a string holds its escaped bytes, whether they stand in
  -- new memory or are the string itself.
  pub iks_escape_lem :
      6 * length text + 1 < 2 ^ 31
      → iks_escape alloc true (some (text ++ 0 ∷ [])) no_len ≡ escaped (escape_bytes text ++ 0 ∷ [])
  unfolding iks_escape text_len
  iks_escape_lem small =
      let n = length text in
      let size = grown n text in
      let exact : size ≡ length (escape_bytes text) = omega (arith, grown-length n text) in
      let bound = escape_bytes-le text in
      let low : size + 1 < 2 ^ 31 = omega arith in
      rw
        (
          strlen-NoNul text [] strict,
          take-append text (0 ∷ []),
          wrap-small n (omega arith),
          escaped_len-grown n text (omega arith),
          wrap-small (size + 1) low,
          as_size-small (size + 1) low,
          as_size-small size (omega arith),
        )
        (elim (Bool-cases (n == size)) [
          | inl same ↦ rw same (
              ap (λ t. escaped (t ++ 0 ∷ []))
                (sym (escape_bytes-grown text n (ground (arith, same)))))
          | inr more ↦
              rw (more, enough (size + 1))
                (in_area_lem (escape_bytes text) size exact (omega arith))
        ])

  unescape_area :
      (d : Bytes) × (iks_unescape alloc true (some (escape_bytes text ++ 0 ∷ [])) no_len ≡ some d)
      × (c_string d ≡ some text)
  unfolding iks_unescape text_len
  unescape_area =
      let area = escape_bytes text ++ 0 ∷ [] in
      let n = length (escape_bytes text) in
      elim (Bool-cases (has_char b'&' area)) [
        | inr none_there ↦ (
          area,
          rw none_there,
          c_string-NoNul (escape_bytes text) [] (NoNul-escape_bytes text strict)
              ∙ ap some (escape_bytes_plain text [] strict none_there),
        )
        | inl there ↦ (
          unescape_bytes n n area ++ 0 ∷ [],
          rw (
            there,
            strlen-NoNul (escape_bytes text) [] (NoNul-escape_bytes text strict),
            enough (n + 1),
          ),
          rw (unescape_bytes-escape_bytes text (0 ∷ []) n (omega (arith, grown-length 0 text)))
              (c_string-NoNul text [] strict),
        )
      ]

  -- Where memory is granted, and for a text without a NUL of less than 2^31 / 6 bytes, so that the
  -- sizes do not wrap, `iks_escape` returns an area, and `iks_unescape` of it one that holds the text.
  pub iks_unescape-iks_escape :
      6 * length text + 1 < 2 ^ 31
      → (area : Bytes) × (d : Bytes) × (iks_escape alloc true (some (text ++ 0 ∷ [])) no_len
          ≡ escaped area)
        × (iks_unescape alloc true (some area) no_len ≡ some d)
        × (c_string d ≡ some text)
  iks_unescape-iks_escape small =
      let (d, e, string) = unescape_area in
      (escape_bytes text ++ 0 ∷ [], d, iks_escape_lem small, e, string)
