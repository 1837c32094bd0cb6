-- ===== src/Iks/Write/Escaped.antt =====
-- What `escape_size` and `escape` of src/iks.c compute, against the table of src/utility.c.
use iksemel.Base.{
  ℕ, zero, suc, ◌+◌, ◌≤◌, true, false, ◌==◌, if◌then◌else◌, [], ◌∷◌, ◌++◌, Bytes, length, strlen,
  ◌≡◌, refl, sym, append-nil, append_assoc, take_all, length-take, length-append, arith,
}
use iksemel.Utility.Escape.{escape_byte, escape_bytes}
use iksemel.Iks.Heap.{dup}
use iksemel.Iks.Write.Escape.{
  byte_size, escape_size, my_strcat, is_special, special, write_plain, escape_loop, escape,
}

byte_size_lem : (c : ℕ) → byte_size c ≡ length (escape_byte c)
unfolding byte_size escape_byte
byte_size_lem c = ground arith

pub escape_size_lem : (sz : ℕ) (src : Bytes) → escape_size sz src ≡ sz + length (escape_bytes src)
unfolding escape_size escape_bytes
escape_size_lem sz [] = omega arith
escape_size_lem sz (c ∷ src) = omega (
  arith,
  escape_size_lem (sz + byte_size c) src,
  byte_size_lem c,
  length-append (escape_byte c) (escape_bytes src),
)

write_plain_lem : (dest plain : Bytes) → write_plain dest plain ≡ dest ++ plain
unfolding write_plain my_strcat
write_plain_lem dest [] = sym (append-nil dest)
write_plain_lem dest (c ∷ plain) =
    let e : (suc (length plain) == 0) ≡ false = ground arith in rw (e, take_all (c ∷ plain))

special_lem : (dest : Bytes) (c : ℕ) → is_special c ≡ true → special dest c ≡ dest ++ escape_byte c
unfolding special escape_byte my_strcat
special_lem dest c h = ground arith

plain_lem : (c : ℕ) → is_special c ≡ false → escape_byte c ≡ c ∷ []
unfolding escape_byte
plain_lem c h = ground arith

pub strlen_le : (s : Bytes) → strlen s ≤ length s
unfolding strlen
strlen_le [] = omega arith
strlen_le (zero ∷ s) = omega arith
strlen_le (suc c ∷ s) = omega (arith, strlen_le s)

escape_loop_lem :
    (dest plain src : Bytes) → escape_loop dest plain src ≡ dest ++ (plain ++ escape_bytes src)
unfolding escape_loop escape_bytes
escape_loop_lem dest plain [] = rw (append-nil plain) (write_plain_lem dest plain)
escape_loop_lem dest plain (c ∷ src) =
    elim (is_special c)
        as (λ b.
          is_special c ≡ b
          → escape_loop (if b then special (write_plain dest plain) c else dest)
              (if b then [] else plain ++ c ∷ []) src
            ≡ dest ++ (plain ++ (escape_byte c ++ escape_bytes src))) [
              | true ↦ λ e. rw (
                escape_loop_lem (special (write_plain dest plain) c) [] src,
                special_lem (write_plain dest plain) c e,
                write_plain_lem dest plain,
                append_assoc,
                append_assoc,
              )
              | false ↦
                  λ e. rw (escape_loop_lem dest (plain ++ c ∷ []) src, plain_lem c e, append_assoc)
            ]
      refl

-- `escape` appends the text with each markup character replaced by the name that `iks_escape`
-- in src/utility.c gives it, and `escape_size` counts the bytes that this adds.
pub escape_lem :
    (dest src : Bytes)
    → (escape dest src ≡ dest ++ escape_bytes src) × (escape_size 0 src ≡ length (escape_bytes src))
unfolding escape
escape_lem dest src = (escape_loop_lem dest [] src, omega (arith, escape_size_lem 0 src))

pub length-escape : (dest src : Bytes) → length (escape dest src) ≡ length dest + escape_size 0 src
length-escape dest src =
    rw ((escape_lem dest src).0, length-append dest (escape_bytes src), (escape_lem dest src).1)

pub length-dup : (s : Bytes) → length (dup s 0) ≡ strlen s
length-dup s =
    let le : strlen s ≤ length s = strlen_le s in ground (arith, length-take (strlen s) s)
