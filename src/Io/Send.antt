-- ===== src/Io/Send.antt =====
-- What `io_send` of src/io-posix.c brings onto the wire.
use iksemel.Base.{
  ℕ, zero, suc, ◌+◌, ◌≤◌, ◌<◌, Option, some, [], ◌∷◌, ◌++◌, Bytes, length, take, drop, take-drop,
  length-drop, ◌≡◌, refl, ◌∙◌, ap, sym, append-nil, append_assoc, arith,
}
use iksemel.Sax.Types.{iks_ok}
use iksemel.Stream.Types.{iks_net_rwerr}
use iksemel.Io.{Sys, Sent, sent, send_again, send_failed, io_send}

-- The documented behaviour of `send`: it puts the first bytes onto the wire, at least one and no more than it
-- is given, or none and an error; EAGAIN and EINTR come at most so often in a row of calls.
pub record Wire {W : Type 0} (sys : Sys W) (sock : ℕ) : Type 0 where
  pub out : W → Bytes
  pub patience : W → ℕ
  pub sends :
      (c : ℕ) (cs : Bytes) (w : W) (n : ℕ) (after : W)
      → sys.send sock (c ∷ cs) w ≡ (sent n, after)
      → (out after ≡ out w ++ take n (c ∷ cs))
        × (0 < n)
        × (n ≤ length (c ∷ cs))
        × (patience after ≤ patience w)
  pub waits :
      (c : ℕ) (cs : Bytes) (w after : W)
      → sys.send sock (c ∷ cs) w ≡ (send_again, after)
      → (out after ≡ out w) × (patience after < patience w)
  pub fails :
      (c : ℕ) (cs : Bytes) (w after : W)
      → sys.send sock (c ∷ cs) w ≡ (send_failed, after)
      → out after ≡ out w

-- All of the text is on the wire, or the code is IKS_NET_RWERR and a part from its beginning is.
pub data Outcome {W : Type 0} (out : W → Bytes) (text : Bytes) (w : W)
    : Option (ℕ × W) → Type 0 where
  whole : (after : W) → out after ≡ out w ++ text → Outcome out text w (some (iks_ok, after))
  partial :
      (n : ℕ) (after : W)
      → out after ≡ out w ++ take n text
      → Outcome out text w (some (iks_net_rwerr, after))

-- a beginning of what is behind a beginning
take-behind : (n k : ℕ) (xs : Bytes) → take n xs ++ take k (drop n xs) ≡ take (n + k) xs
take-behind zero k xs = let e : 0 + k ≡ k = omega arith in rw e
take-behind (suc n) zero [] = let e : suc n + 0 ≡ suc n = omega arith in rw e
take-behind (suc n) (suc k) [] = let e : suc n + suc k ≡ suc (n + suc k) = omega arith in rw e
take-behind (suc n) k (x ∷ xs) =
    let e : suc n + k ≡ suc (n + k) = omega arith in rw e (ap (λ t. x ∷ t) (take-behind n k xs))

-- a part was sent, and this came of the rest
Outcome-behind :
    {W : Type 0} (out : W → Bytes) (text : Bytes) (w after : W) (n : ℕ) (r : Option (ℕ × W))
    → out after ≡ out w ++ take n text
    → Outcome out (drop n text) after r
    → Outcome out text w r
Outcome-behind out text w after n _ first (whole later e) = whole later (
    e
    ∙ ap (λ t. t ++ drop n text) first
    ∙ append_assoc (out w) (take n text) (drop n text)
    ∙ ap (λ t. out w ++ t) (take-drop n text))
Outcome-behind out text w after n _ first (partial k later e) = partial (n + k) later (
    e
    ∙ ap (λ t. t ++ take k (drop n text)) first
    ∙ append_assoc (out w) (take n text) (take k (drop n text))
    ∙ ap (λ t. out w ++ t) (take-behind n k text))

module _ {W : Type 0} (sys : Sys W) (sock : ℕ) (wire : Wire sys sock) where
  open wire use {out, patience, sends, waits, fails}

  -- a call of `send` with this result, and what `io_send` does behind it
  send_step :
      (fuel c : ℕ) (cs : Bytes) (w : W)
      → length (c ∷ cs) + patience w ≤ suc fuel
      → ((text : Bytes) (after : W)
          → length text + patience after ≤ fuel
          → Outcome out text after (io_send sys fuel sock text after))
      → (r : Sent × W) → sys.send sock (c ∷ cs) w ≡ r
      → Outcome out (c ∷ cs) w (io_send sys (suc fuel) sock (c ∷ cs) w)
  unfolding io_send
  send_step fuel c cs w le rest (sent n, after) e =
      let (first, some_sent, enough, patient) = sends c cs w n after e in
      rw (io_send, e, e)
        (Outcome-behind out (c ∷ cs) w after n _ first
          (rest (drop n (c ∷ cs)) after (omega (arith, length-drop n (c ∷ cs)))))
  send_step fuel c cs w le rest (send_again, after) e =
      let (same, patient) = waits c cs w after e in
      rw (io_send, e, e)
        (Outcome-behind out (c ∷ cs) w after 0 _ (same ∙ sym (append-nil (out w)))
          (rest (c ∷ cs) after (omega arith)))
  send_step fuel c cs w le rest (send_failed, after) e =
      rw (io_send, e, e) (partial 0 after (fails c cs w after e ∙ sym (append-nil (out w))))

  -- With fuel for the bytes and for the calls that have to be repeated, `io_send` ends: it has put
  -- all of the text onto the wire, in order, or it returns IKS_NET_RWERR and has put a beginning of
  -- it there.
  pub io_send-Outcome :
      (fuel : ℕ) (text : Bytes) (w : W)
      → length text + patience w ≤ fuel
      → Outcome out text w (io_send sys fuel sock text w)
  unfolding io_send
  io_send-Outcome fuel [] w le = whole w (sym (append-nil (out w)))
  io_send-Outcome zero (c ∷ cs) w le = absurd (omega arith)
  io_send-Outcome (suc fuel) (c ∷ cs) w le =
      send_step fuel c cs w le (io_send-Outcome fuel) (sys.send sock (c ∷ cs) w) refl
