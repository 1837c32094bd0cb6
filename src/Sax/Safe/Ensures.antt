-- ===== src/Sax/Safe/Ensures.antt =====
-- A postcondition for the pieces of `sax_core`, with a rule for their sequence.
use iksemel.Base.{ℕ, ◌≡◌, ◌≢◌}
use iksemel.Sax.Types.{Parser, Outcome, ok, err, fault, out_of_fuel, ◌>>=◌, iks_ok}

-- No fault and no lack of fuel: either the result has `P`, or the error and the parser have `E`.
abbrev pub Ensures : {U A : Type 0} → (ℕ → Parser U → Type 0) → (A → Type 0) → Outcome U A → Type 0
Ensures E P (ok a) = P a
Ensures E P (err e q) = E e q
Ensures E P fault = ⊥
Ensures E P out_of_fuel = ⊥

module _ {U A B : Type 0} (E : ℕ → Parser U → Type 0) where
  pub Ensures-bind :
      (P : A → Type 0) (Q : B → Type 0) (m : Outcome U A) (f : A → Outcome U B)
      → Ensures E P m
      → ((a : A) → P a → Ensures E Q (f a))
      → Ensures E Q (m >>= f)
  Ensures-bind P Q (ok a) f h k = k a h
  Ensures-bind P Q (err e q) f h k = h
  Ensures-bind P Q fault f h k = h
  Ensures-bind P Q out_of_fuel f h k = h

module _ {U A B : Type 0} (E F : ℕ → Parser U → Type 0) where
  -- the same where errors are told differently
  pub Ensures-seq :
      (P : A → Type 0) (Q : B → Type 0) (m : Outcome U A) (f : A → Outcome U B)
      → Ensures E P m
      → ((e : ℕ) (q : Parser U) → E e q → F e q)
      → ((a : A) → P a → Ensures F Q (f a))
      → Ensures F Q (m >>= f)
  Ensures-seq P Q (ok a) f h weak k = k a h
  Ensures-seq P Q (err e q) f h weak k = weak e q h
  Ensures-seq P Q fault f h weak k = h
  Ensures-seq P Q out_of_fuel f h weak k = h

module _ {U A : Type 0} (E F : ℕ → Parser U → Type 0) where
  pub Ensures-mono :
      (P Q : A → Type 0) (m : Outcome U A)
      → Ensures E P m
      → ((e : ℕ) (q : Parser U) → E e q → F e q)
      → ((a : A) → P a → Q a)
      → Ensures F Q m
  Ensures-mono P Q (ok a) h weak k = k a h
  Ensures-mono P Q (err e q) h weak k = weak e q h
  Ensures-mono P Q fault h weak k = h
  Ensures-mono P Q out_of_fuel h weak k = h

-- An error has a code of its own, and is reported with the counters as they stood.
abbrev pub Fails : {U : Type 0} → Parser U → ℕ → Parser U → Type 0
Fails p e q = (e ≢ iks_ok) × (q.nr_bytes ≡ p.nr_bytes) × (q.nr_lines ≡ p.nr_lines)
