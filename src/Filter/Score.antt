-- ===== src/Filter/Score.antt =====
-- What a score stands for: every test that the rule makes succeeds, and its points are added up.
use iksemel.Base.{
  ℕ, ◌+◌, ◌≡◌, refl, Bool, true, false, not, ◌&&◌, ◌||◌, ◌==◌, if◌then◌else◌, Option, none, some,
  List, [], ◌∷◌, arith,
}
use iksemel.Filter.{
  Rule, Packet, iks_rule_id, iks_rule_type, iks_rule_subtype, iks_rule_from, iks_rule_from_partial,
  iks_rule_ns, same_string, has_rule, test, full_of, partial_of, tests, score_of,
}

-- a test: is it made, does it succeed, and what are its points
abbrev Check : Type 0
Check = Bool × Bool × ℕ

-- the six tests and their points
abbrev pub checks : Rule → Packet → List Check
checks r pak =
    (has_rule r iks_rule_from_partial, same_string r.from (partial_of pak), 8)
    ∷ (has_rule r iks_rule_from, same_string r.from (full_of pak), 8)
    ∷ (has_rule r iks_rule_ns, same_string r.ns pak.ns, 4)
    ∷ (has_rule r iks_rule_id, same_string r.id pak.id, 16)
    ∷ (has_rule r iks_rule_subtype, r.subtype == pak.subtype, 2)
    ∷ (has_rule r iks_rule_type, r.type == pak.type, 1)
    ∷ []

abbrev pub all_pass : List Check → Bool
all_pass [] = true
all_pass ((made, good, points) ∷ cs) = (not made || good) && all_pass cs

abbrev pub sum_points : List Check → ℕ
sum_points [] = 0
sum_points ((made, good, points) ∷ cs) = (if made then points else 0) + sum_points cs

abbrev run_checks : List Check → Option ℕ
run_checks [] = some 0
run_checks ((made, good, points) ∷ cs) = test made good points (run_checks cs)

run_checks_lem :
    (cs : List Check) → run_checks cs ≡ (if all_pass cs then some (sum_points cs) else none)
run_checks_lem [] = refl
run_checks_lem ((made, good, points) ∷ cs) = ground (arith, run_checks_lem cs)

or_zero :
    (b : Bool) (n : ℕ)
    → elim (if b then some n else none) as (λ x. ℕ) [ none ↦ 0 | some m ↦ m ] ≡ (if b then n else 0)
or_zero true n = refl
or_zero false n = refl

-- The score of a rule on a packet is the sum of the points of the tests that its mask asks for, if
-- all of these succeed, and 0 if one fails.
pub score_of-points :
    (r : Rule) (pak : Packet)
    → score_of r pak ≡ (if all_pass (checks r pak) then sum_points (checks r pak) else 0)
unfolding score_of tests
score_of-points r pak =
    let same : tests r pak ≡ run_checks (checks r pak) = refl in
    rw (same, score_of)
      (rw (run_checks_lem (checks r pak))
        (or_zero (all_pass (checks r pak)) (sum_points (checks r pak))))
