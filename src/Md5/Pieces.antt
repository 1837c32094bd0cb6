-- ===== src/Md5/Pieces.antt =====
-- `iks_md5_hash` copies whole pieces: this is as if the bytes came one at a time, so it does not
-- matter how a message is cut into calls.
use iksemel.Base.{
  store, ℕ, zero, suc, ◌+◌, ◌-◌, ◌*◌, ◌^◌, ◌≤◌, ◌<◌, ◌≡◌, ◌≢◌, refl, sym, ap, ◌∙◌, Bool, true,
  false, ◌==◌, if◌then◌else◌, [], ◌∷◌, ◌++◌, Bytes, length, length-append, length-take, length-drop,
  take, drop, take-drop, take_all, int_of_size, arith,
}
use iksemel.Md5.{Md5, md5_compute, count_bits, md5_blocks, md5_feed, md5_finish, md5_hash}

store-nil : (b : Bytes) (at : ℕ) → store b at [] ≡ b
store-nil [] at = refl
store-nil (x ∷ b) zero = refl
store-nil (x ∷ b) (suc at) = ap (λ t. x ∷ t) (store-nil b at)

store-store :
    (b : Bytes) (at c : ℕ) (cs : Bytes)
    → store (store b at (c ∷ [])) (suc at) cs ≡ store b at (c ∷ cs)
store-store [] at c cs = refl
store-store (x ∷ b) zero c cs = ap (λ t. c ∷ store t 0 cs) (store-nil b 0)
store-store (x ∷ b) (suc at) c cs = ap (λ t. x ∷ t) (store-store b at c cs)

-- a full buffer is hashed before the next byte
abbrev emptied : Md5 → Md5
emptied m = count_bits (8 * 64) (record (md5_compute m) { blen = 0 })

abbrev put : Md5 → ℕ → Md5
put m c = record m { buffer = store m.buffer m.blen (c ∷ []); blen = suc m.blen }

feed_byte : Md5 → ℕ → Md5
feed_byte m c = if m.blen == 64 then put (emptied m) c else put m c

feed_bytes : Md5 → Bytes → Md5
feed_bytes m [] = m
feed_bytes m (c ∷ cs) = feed_bytes (feed_byte m c) cs

feed_bytes-append : (a b : Bytes) (m : Md5) → feed_bytes m (a ++ b) ≡ feed_bytes (feed_bytes m a) b
unfolding feed_bytes
feed_bytes-append [] b m = refl
feed_bytes-append (c ∷ a) b m = feed_bytes-append a b (feed_byte m c)

abbrev filled : Md5 → Bytes → Md5
filled m bs = record m { buffer = store m.buffer m.blen bs; blen = m.blen + length bs }

-- bytes for which there is room
feed_bytes-room : (bs : Bytes) (m : Md5) → m.blen + length bs ≤ 64 → feed_bytes m bs ≡ filled m bs
unfolding feed_bytes feed_byte
feed_bytes-room [] m h =
    let e : m.blen ≡ m.blen + 0 = omega arith in
    ap (λ t. record m { buffer = t }) (sym (store-nil m.buffer m.blen))
    ∙ ap (λ t. record m { buffer = store m.buffer m.blen []; blen = t }) e
feed_bytes-room (c ∷ bs) m h =
    let below : (m.blen == 64) ≡ false = ground arith in
    let e : suc m.blen + length bs ≡ m.blen + length (c ∷ bs) = omega arith in
    ap (λ t. feed_bytes (if t then put (emptied m) c else put m c) bs) below
    ∙ feed_bytes-room bs (put m c) (omega arith)
    ∙ ap (λ t. record m { buffer = t; blen = suc m.blen + length bs })
        (store-store m.buffer m.blen c bs)
    ∙ ap (λ t. record m { buffer = store m.buffer m.blen (c ∷ bs); blen = t }) e

-- the first byte behind a full buffer, and those for which there is room then
feed_bytes-full :
    (c : ℕ) (bs : Bytes) (m : Md5)
    → m.blen ≡ 64
    → length bs ≤ 63
    → feed_bytes m (c ∷ bs)
      ≡ record (emptied m) { buffer = store (emptied m).buffer 0 (c ∷ bs); blen = length (c ∷ bs) }
unfolding feed_bytes feed_byte
feed_bytes-full c bs m full h =
    let is : (m.blen == 64) ≡ true = ground arith in
    let e : 1 + length bs ≡ suc (length bs) = omega arith in
    ap (λ t. feed_bytes (if t then put (emptied m) c else put m c) bs) is
    ∙ feed_bytes-room bs (put (emptied m) c) (omega arith)
    ∙ ap (λ t. record (emptied m) { buffer = t; blen = 1 + length bs })
        (store-store (emptied m).buffer 0 c bs)
    ∙ ap (λ t. record (emptied m) { buffer = store (emptied m).buffer 0 (c ∷ bs); blen = t }) e

blocks-bytes :
    (fuel : ℕ) (m : Md5) (bs : Bytes)
    → length bs ≤ fuel
    → (length bs ≢ 0 → m.blen ≡ 64)
    → md5_blocks fuel m bs ≡ feed_bytes m bs
unfolding md5_blocks feed_bytes
blocks-bytes fuel m [] enough full = refl
blocks-bytes zero m (c ∷ bs) enough full = absurd (omega arith)
blocks-bytes (suc fuel) m (c ∷ bs) enough full =
    let piece = c ∷ take 63 bs in
    let q = record (emptied m) { buffer = store (emptied m).buffer 0 piece; blen = length piece } in
    let lt = length-take 63 bs in
    let ld = length-drop 63 bs in
    blocks-bytes fuel q (drop 63 bs) (omega arith) (λ ne. omega arith)
    ∙ ap (λ t. feed_bytes t (drop 63 bs))
        (sym (feed_bytes-full c (take 63 bs) m (full (omega arith)) (omega arith)))
    ∙ sym (feed_bytes-append piece (drop 63 bs) m)
    ∙ ap (λ t. feed_bytes m (c ∷ t)) (take-drop 63 bs)

feed-bytes : (m : Md5) (bs : Bytes) → m.blen ≤ 64 → md5_feed m bs ≡ feed_bytes m bs
unfolding md5_feed
feed-bytes m bs h =
    let n = 64 - m.blen in
    let lt = length-take n bs in
    let ld = length-drop n bs in
    blocks-bytes (length bs) (filled m (take n bs)) (drop n bs) (omega arith) (λ ne. omega arith)
    ∙ ap (λ t. feed_bytes t (drop n bs)) (sym (feed_bytes-room (take n bs) m (omega arith)))
    ∙ sym (feed_bytes-append (take n bs) (drop n bs) m)
    ∙ ap (feed_bytes m) (take-drop n bs)

feed_bytes-blen : (bs : Bytes) (m : Md5) → m.blen ≤ 64 → (feed_bytes m bs).blen ≤ 64
unfolding feed_bytes feed_byte
feed_bytes-blen [] m h = h
feed_bytes-blen (c ∷ bs) m h =
    feed_bytes-blen bs (if m.blen == 64 then put (emptied m) c else put m c) (ground arith)

whole : (bs : Bytes) → length bs < 2 ^ 31 → take (int_of_size (length bs)) bs ≡ bs
whole bs h =
    let e : int_of_size (length bs) ≡ length bs = ground arith in
    ap (λ t. take t bs) e ∙ take_all bs

-- Two calls of `iks_md5_hash` with pieces of less than 2^31 bytes in all, of which the second may
-- finish, leave what one call with both leaves, where the buffer has at most 64 bytes.
pub md5_hash-append :
    (m : Md5) (a b : Bytes) (finish : Bool)
    → m.blen ≤ 64
    → length (a ++ b) < 2 ^ 31
    → md5_hash (md5_hash m a (length a) false) b (length b) finish
      ≡ md5_hash m (a ++ b) (length (a ++ b)) finish
unfolding md5_hash
md5_hash-append m a b finish h short =
    let l = length-append a b in
    let once = ap (md5_feed m) (whole a (omega arith)) ∙ feed-bytes m a h in
    let twice =
      ap (λ q. md5_feed q (take (int_of_size (length b)) b)) once
      ∙ ap (md5_feed (feed_bytes m a)) (whole b (omega arith))
      ∙ feed-bytes (feed_bytes m a) b (feed_bytes-blen a m h)
      ∙ sym (feed_bytes-append a b m)
      ∙ sym (feed-bytes m (a ++ b) h)
      ∙ ap (md5_feed m) (sym (whole (a ++ b) short)) in
    ap (λ q. if finish then md5_finish q else q) twice
