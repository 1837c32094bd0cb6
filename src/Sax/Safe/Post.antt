-- ===== src/Sax/Safe/Post.antt =====
-- What a round of `sax_core` leaves behind.
use iksemel.Base.{ℕ, ◌<◌, ◌≡◌, refl, Bool, true, false, if◌then◌else◌, Option, none, some}
use iksemel.Sax.Types.{Parser, Outcome}
use iksemel.Sax.Core.{Round}
use iksemel.Sax.Valid.{Sound, PendingAt, rank}
use iksemel.Sax.Safe.Ensures.{Ensures, Fails}

abbrev pub held_byte : Bool → ℕ → Option ℕ
held_byte true c = some c
held_byte false c = none

abbrev pub RankOk : Bool → ℕ → ℕ → Type 0
RankOk true a b = a < b
RankOk false a b = Unit {0}

module _ {U : Type 0} where
  -- The invariant, with the counters as they were; `n` is the rank of the context before.
  abbrev pub RoundOk : ℕ → ℕ → Parser U → ℕ → Round U → Type 0
  RoundOk c pos p n r =
      Sound (held_byte r.re c) r.prs
      × PendingAt pos r.locals.stack_old
      × (r.prs.nr_bytes ≡ p.nr_bytes)
      × (r.prs.nr_lines ≡ p.nr_lines)
      × RankOk r.re (rank r.prs.context) n

  abbrev pub RoundEnsures : ℕ → ℕ → Parser U → ℕ → Outcome U (Round U) → Type 0
  RoundEnsures c pos p n = Ensures (Fails p) (RoundOk c pos p n)

module _ {U : Type 0} (c pos : ℕ) (p : Parser U) (n : ℕ) where
  -- a test of the source
  pub branch :
      (b : Bool) (m m' : Outcome U (Round U))
      → (b ≡ true → RoundEnsures c pos p n m)
      → (b ≡ false → RoundEnsures c pos p n m')
      → RoundEnsures c pos p n (if b then m else m')
  branch true m m' h k = h refl
  branch false m m' h k = k refl
