-- ===== src/Tests/Filter.antt =====
-- A filter with three rules.
use iksemel.Base.{
  ℕ, ◌≡◌, refl, arith, Bool, ◌==◌, none, some, List, [], ◌∷◌, ◌++◌, codes, eq_bytes, if◌then◌else◌,
}
use mathlib.Core.List.{map, Perm}
use iksemel.Filter.{
  Rule, Packet, rule_type, rule_id, rule_from_partial, new_rule, filter_add_rule, filter_packet,
  score_of, score_rules, call_hooks, find_max, clear_score, rule_at, tests, has_rule, same_string,
  add_args, add_arg,
}
use iksemel.Filter.Order.{filter_packet-order, positives, scored, Descending, run_order}
use iksemel.Filter.Score.{score_of-points, all_pass, sum_points, checks}
use iksemel.Filter.Links.{Links, done, put, filter_remove_hook}
use iksemel.Filter.Chain.{Fresh, Gone, Holds, without_hook, cell_of}
use iksemel.Filter.Removed.{filter_remove_hook-Holds}

-- of any type; with an id; with an id and a sender
abbrev rules : List Rule
unfolding filter_add_rule add_args add_arg
rules =
    filter_add_rule
      (filter_add_rule (filter_add_rule [] 1 7 0 (rule_type 2 ∷ [])) 2 8 0
        (rule_id (codes "x1") ∷ []))
      3 7 0 (rule_id (codes "x1") ∷ rule_from_partial (codes "a@b") ∷ [])

abbrev packet : Packet
packet = record {
  type = 2;
  subtype = 0;
  id = some (codes "x1");
  ns = none;
  from = some (record { full = codes "a@b/c"; partial = codes "a@b" });
}

-- A hook that records the rule, and eats the packet at the second one.
abbrev record_rule : Rule → Packet → List ℕ → Bool × List ℕ
record_rule r pak s = (r.key == 2, s ++ r.key ∷ [])

running : Unit {0}
unfolding filter_packet score_rules call_hooks find_max clear_score rule_at score_of tests has_rule
    same_string
running = tt

called :
    elim (filter_packet record_rule packet rules []) as (λ x. List ℕ) [
      | none ↦ []
      | some (left, s) ↦ s
    ]
    ≡ 3 ∷ 2 ∷ []
unfolding running filter_add_rule rules eq_bytes
called = refl

filter_packet-order_example :
    (order : List Rule) × Perm order (positives (map (scored packet) rules))
    × Descending order
    × ((left : List Rule) × (filter_packet record_rule packet rules []
          ≡ some (left, run_order record_rule packet order [])))
filter_packet-order_example = filter_packet-order record_rule packet rules []

abbrev id_rule : Rule
unfolding add_args add_arg
id_rule = add_args (new_rule 2 8 0) (rule_id (codes "x1") ∷ [])

score_of-points_example :
    score_of id_rule packet
    ≡ (if all_pass (checks id_rule packet) then sum_points (checks id_rule packet) else 0)
score_of-points_example = score_of-points id_rule packet

-- three rules in memory, of which the first and the last have the hook 7
abbrev three : List Rule
three = new_rule 1 7 0 ∷ new_rule 2 8 0 ∷ new_rule 3 7 0 ∷ []

abbrev linked : Links
linked = record {
  rules = some 1;
  last_rule = some 3;
  cell =
      put
        (put (put (λ a. none) 1 (some (cell_of (new_rule 1 7 0) none (some 2)))) 2
          (some (cell_of (new_rule 2 8 0) (some 1) (some 3))))
        3 (some (cell_of (new_rule 3 7 0) (some 2) none));
}

linked-Holds : Holds linked three
linked-Holds = record {
  head = refl;
  tail = refl;
  chain = (refl, (refl, (refl, tt)));
  distinct = ((omega arith, (omega arith, tt)), ((omega arith, tt), (tt, tt)));
}

filter_remove_hook-Holds_example :
    (after : Links) × (filter_remove_hook 3 linked 7 ≡ done after)
    × Holds after (without_hook 7 three)
    × Gone 7 after.cell three
    × ((k : ℕ) → Fresh k three → after.cell k ≡ linked.cell k)
filter_remove_hook-Holds_example =
    filter_remove_hook-Holds 3 7 three linked (omega arith) linked-Holds
