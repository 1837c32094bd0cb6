-- ===== src/Sax/Safe/Session.antt =====
-- A parser through its life: made by `iks_sax_new`, fed by `iks_parse`, and reset.
use mathlib.Core.Path.{subst}
use iksemel.Base.{
  int_of_size, [], ℕ, ◌≡◌, refl, arith, Option, none, some, Bytes, take, strlen, if◌then◌else◌,
  ◌==◌,
}
use iksemel.Sax.Types.{Env, Parser, Outcome, ok, sax_new}
use iksemel.Sax.Parse.{iks_parse, parser_reset}
use iksemel.Sax.Valid.{IsValid}
use iksemel.Sax.Safe.Ensures.{Ensures}
use iksemel.Sax.Safe.Loop.{sax_core-Reads, Reads, StopsIn}

-- the parsers that a client can have, as long as `iks_parse` has returned IKS_OK
pub data Reachable {U : Type 0} (env : Env U) : Parser U → Type 0 where
  made : (u : U) → Reachable env (sax_new u)
  parsed :
      (p q : Parser U) (area : Option Bytes) (len : ℕ)
      → Reachable env p
      → iks_parse env p area len ≡ ok q
      → Reachable env q
  reset : (p : Parser U) → Reachable env p → Reachable env (parser_reset env p)

-- the bytes that `iks_parse` reads
abbrev pub given : Option Bytes → ℕ → Bytes
given none len = []
given (some area) len = take (int_of_size (if len == 0 then strlen area else len)) area

module _ {U : Type 0} (env : Env U) where
  sax_new-IsValid : (u : U) → IsValid (sax_new u)
  sax_new-IsValid u = record {
    sound = record { room = omega arith; size = refl; at = refl };
    bytes = omega arith;
    lines = omega arith;
  }

  parser_reset-IsValid : (p : Parser U) → IsValid p → IsValid (parser_reset env p)
  unfolding parser_reset
  parser_reset-IsValid p v = record {
    sound = record { room = omega arith; size = v.sound.size; at = refl };
    bytes = omega arith;
    lines = omega arith;
  }

  iks_parse-Reads :
      (p : Parser U) (area : Option Bytes) (len : ℕ)
      → IsValid p
      → Ensures (StopsIn p (given area len)) (Reads p (given area len)) (iks_parse env p area len)
  unfolding iks_parse
  iks_parse-Reads p none len v =
      let b = v.bytes in
      let l = v.lines in
      (v, record { within = omega arith; bytes = omega arith; lines = omega arith })
  iks_parse-Reads p (some area) len v = sax_core-Reads env p (given (some area) len) v

  ok-IsValid :
      (p q : Parser U) (buf : Bytes) (m : Outcome U (Parser U))
      → Ensures (StopsIn p buf) (Reads p buf) m
      → m ≡ ok q
      → IsValid q
  ok-IsValid p q buf m h e = (subst (Ensures (StopsIn p buf) (Reads p buf)) e h).0

  pub Reachable-IsValid : (p : Parser U) → Reachable env p → IsValid p
  Reachable-IsValid p (made u) = sax_new-IsValid u
  Reachable-IsValid p (parsed p' q area len r e) =
      ok-IsValid p' q (given area len) (iks_parse env p' area len)
        (iks_parse-Reads p' area len (Reachable-IsValid p' r)) e
  Reachable-IsValid p (reset p' r) = parser_reset-IsValid p' (Reachable-IsValid p' r)

  -- A client that goes on only after IKS_OK can feed its parser any bytes in any pieces: the call
  -- stays in bounds and comes to an end; it has counted every byte and line, or it returns an error
  -- that is not IKS_OK with the counters at the byte where it gave up.
  pub iks_parse-Reachable :
      (p : Parser U) (area : Option Bytes) (len : ℕ)
      → Reachable env p
      → Ensures (StopsIn p (given area len)) (Reads p (given area len)) (iks_parse env p area len)
  iks_parse-Reachable p area len r = iks_parse-Reads p area len (Reachable-IsValid p r)
