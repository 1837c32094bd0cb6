-- ===== src/Sha/Rounds.antt =====
-- The four uses of the macro `SHA` in src/sha.c are the eighty rounds of SHA-1.
use iksemel.Base.{ℕ, zero, suc, ◌+◌, ◌≤◌, ◌<◌, List, get_or, ◌≡◌, refl, sym, ap, ◌∙◌, arith}
use iksemel.Sha.{Regs, srl, choose, parity, majority, sha_rounds, all_rounds}
use iksemel.Sha.Spec.{round_function, round_constant, round, rounds}

rounds-add :
    (n m t : ℕ) (ws : List ℕ) (r : Regs)
    → rounds (n + m) t ws r ≡ rounds m (t + n) ws (rounds n t ws r)
unfolding rounds
rounds-add zero m t ws r =
    let e : 0 + m ≡ m = omega arith in let f : t + 0 ≡ t = omega arith in rw (e, f)
rounds-add (suc n) m t ws r =
    let e : suc n + m ≡ suc (n + m) = omega arith in
    let f : t + suc n ≡ (t + 1) + n = omega arith in
    rw (e, f) (rounds-add n m (t + 1) ws (round t (get_or ws t 0) r))

-- rounds of one function and one constant
sha_rounds-rounds :
    (f : Regs → ℕ) (k n t : ℕ) (ws : List ℕ) (r : Regs)
    → ((i : ℕ) → t ≤ i → i < t + n → (q : Regs) → round_function i q ≡ f q)
    → ((i : ℕ) → t ≤ i → i < t + n → round_constant i ≡ k)
    → sha_rounds f k n t ws r ≡ rounds n t ws r
unfolding sha_rounds rounds srl
sha_rounds-rounds f k zero t ws r fs ks = refl
sha_rounds-rounds f k (suc n) t ws r fs ks =
    rw (fs t (omega arith) (omega arith) r, ks t (omega arith) (omega arith))
      (sha_rounds-rounds f k n (t + 1) ws _ (λ i l u. fs i (omega arith) (omega arith))
        (λ i l u. ks i (omega arith) (omega arith)))

pub all_rounds-rounds : (ws : List ℕ) (r : Regs) → all_rounds ws r ≡ rounds 80 0 ws r
unfolding all_rounds
all_rounds-rounds ws r =
    let r1 = sha_rounds choose 0x5a827999 20 0 ws r in
    let r2 = sha_rounds parity 0x6ed9eba1 20 20 ws r1 in
    let r3 = sha_rounds majority 0x8f1bbcdc 20 40 ws r2 in
    let e1 : r1 ≡ rounds 20 0 ws r =
      sha_rounds-rounds choose 0x5a827999 20 0 ws r (λ i l u q. ground arith)
        (λ i l u. ground arith) in
    let e2 : r2 ≡ rounds 20 20 ws r1 =
      sha_rounds-rounds parity 0x6ed9eba1 20 20 ws r1 (λ i l u q. ground arith)
        (λ i l u. ground arith) in
    let e3 : r3 ≡ rounds 20 40 ws r2 =
      sha_rounds-rounds majority 0x8f1bbcdc 20 40 ws r2 (λ i l u q. ground arith)
        (λ i l u. ground arith) in
    let e4 : sha_rounds parity 0xca62c1d6 20 60 ws r3 ≡ rounds 20 60 ws r3 =
      sha_rounds-rounds parity 0xca62c1d6 20 60 ws r3 (λ i l u q. ground arith)
        (λ i l u. ground arith) in
    e4
    ∙ ap (rounds 20 60 ws) (e3 ∙ ap (rounds 20 40 ws) (e2 ∙ ap (rounds 20 20 ws) e1))
    ∙ sym (
        rounds-add 20 60 0 ws r
        ∙ rounds-add 20 40 20 ws (rounds 20 0 ws r)
        ∙ rounds-add 20 20 40 ws (rounds 20 20 ws (rounds 20 0 ws r)))
