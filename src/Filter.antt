-- ===== src/Filter.antt =====
-- src/filter.c: rules with a mask of what they test, their scores on a packet, and the hooks of
-- the matching rules in the order of their scores. `Score` has what a score stands for, `Order`
-- the order of the calls, `Links` the list in memory, from which rules are
-- taken out.
pub mod Score
pub mod Order
pub mod Links
pub mod Chain
pub mod Relink
pub mod Removed
use iksemel.Base.{
  ℕ, zero, suc, ◌+◌, bit_and, Bool, true, false, not, ◌&&◌, ◌||◌, ◌==◌, ltb, if◌then◌else◌, Option,
  none, some, List, [], ◌∷◌, ◌++◌, Bytes, length, eq_bytes,
}

-- `enum ikspaktype`, `enum iksubtype` and the hooks are numbers here. `key` tells rules apart, as
-- their addresses do.
pub record Rule : Type 0 where
  pub key : ℕ
  pub user_data : ℕ
  pub filter_hook : ℕ
  pub id : Option Bytes
  pub from : Option Bytes
  pub ns : Option Bytes
  pub score : ℕ
  pub rules : ℕ
  pub type : ℕ
  pub subtype : ℕ

-- the parts of `iksid` and of `ikspak` that the filter reads
pub record Sender : Type 0 where
  pub full : Bytes
  pub partial : Bytes

pub record Packet : Type 0 where
  pub type : ℕ
  pub subtype : ℕ
  pub id : Option Bytes
  pub ns : Option Bytes
  pub from : Option Sender

abbrev pub iks_rule_id : ℕ
iks_rule_id = 1

abbrev pub iks_rule_type : ℕ
iks_rule_type = 2

abbrev pub iks_rule_subtype : ℕ
iks_rule_subtype = 4

abbrev pub iks_rule_from : ℕ
iks_rule_from = 8

abbrev pub iks_rule_from_partial : ℕ
iks_rule_from_partial = 16

abbrev pub iks_rule_ns : ℕ
iks_rule_ns = 32

-- `iks_strcmp (a, b) == 0`: false where one of them is NULL
unfoldable pub same_string : Option Bytes → Option Bytes → Bool
same_string none b = false
same_string (some a) none = false
same_string (some a) (some b) = eq_bytes a b

unfoldable pub has_rule : Rule → ℕ → Bool
has_rule r bit = not (bit_and r.rules bit == 0)

-- One test of `iks_filter_packet`: the score that the rule gets for it, or a failure.
-- A rule that does not make the test gets nothing.
abbrev pub test : Bool → Bool → ℕ → Option ℕ → Option ℕ
test made good points none = none
test made good points (some n) = if made then (if good then some (n + points) else none) else some n

abbrev pub full_of : Packet → Option Bytes
full_of pak = elim pak.from [ none ↦ none | some s ↦ some s.full ]

abbrev pub partial_of : Packet → Option Bytes
partial_of pak = elim pak.from [ none ↦ none | some s ↦ some s.partial ]

-- `score` and `fail` behind the six tests; `none` for a failure
unfoldable pub tests : Rule → Packet → Option ℕ
tests r pak = test (has_rule r iks_rule_from_partial) (same_string r.from (partial_of pak)) 8 (
    test (has_rule r iks_rule_from) (same_string r.from (full_of pak)) 8 (
      test (has_rule r iks_rule_ns) (same_string r.ns pak.ns) 4 (
        test (has_rule r iks_rule_id) (same_string r.id pak.id) 16 (
          test (has_rule r iks_rule_subtype) (r.subtype == pak.subtype) 2
            (test (has_rule r iks_rule_type) (r.type == pak.type) 1 (some 0))))))

-- `if (fail != 0) score = 0;`
unfoldable pub score_of : Rule → Packet → ℕ
score_of r pak = elim (tests r pak) [ none ↦ 0 | some n ↦ n ]

-- The first loop of `iks_filter_packet`: the rules with their scores, and the place of the first
-- one of the highest score, if any score is above 0.
unfoldable pub score_rules : Packet → ℕ → Option ℕ → ℕ → List Rule → List Rule × Option ℕ
score_rules pak i best max [] = ([], best)
score_rules pak i best max (r ∷ rs) =
    let score = score_of r pak in
    let higher = ltb max score in
    let (rs', best') =
      score_rules pak (i + 1) (if higher then some i else best) (if higher then score else max)
        rs in
    (record r { score = score } ∷ rs', best')

-- the inner loop of the second one
unfoldable pub find_max : ℕ → Option ℕ → ℕ → List Rule → Option ℕ
find_max i best max [] = best
find_max i best max (r ∷ rs) =
    let higher = ltb max r.score in
    find_max (i + 1) (if higher then some i else best) (if higher then r.score else max) rs

-- `max_rule->score = 0;`
unfoldable pub clear_score : ℕ → List Rule → List Rule
clear_score i [] = []
clear_score zero (r ∷ rs) = record r { score = 0 } ∷ rs
clear_score (suc i) (r ∷ rs) = r ∷ clear_score i rs

unfoldable pub rule_at : ℕ → List Rule → Option Rule
rule_at i [] = none
rule_at zero (r ∷ rs) = some r
rule_at (suc i) (r ∷ rs) = rule_at i rs

-- The hooks are functions of the client; they change a state of its own, and say whether they
-- have eaten the packet. They are taken not to change the filter while it runs.
module _ {S : Type 0} (hook : Rule → Packet → S → Bool × S) (pak : Packet) where
  -- The second loop, on fuel; `none` if that runs out.
  unfoldable pub call_hooks : ℕ → List Rule → Option ℕ → S → Option (List Rule × S)
  call_hooks fuel rules none s = some (rules, s)
  call_hooks zero rules (some i) s = none
  call_hooks (suc fuel) rules (some i) s = elim (rule_at i rules) [
    | none ↦ none
    | some r ↦
        let (eaten, s') = hook r pak s in
        let rules' = clear_score i rules in
        elim eaten [
          | true ↦ some (rules, s')
          | false ↦ call_hooks fuel rules' (find_max 0 none 0 rules') s'
        ]
  ]

  -- `iks_filter_packet`: the rules as it leaves them, and the client's state
  unfoldable pub filter_packet : List Rule → S → Option (List Rule × S)
  filter_packet rules s =
      let (rules', best) = score_rules pak 0 none 0 rules in
      call_hooks (length rules + 1) rules' best s

-- the arguments of `iks_filter_add_rule` behind the user data
pub data RuleArg : Type 0 where
  rule_type rule_subtype : ℕ → RuleArg
  rule_id rule_ns rule_from rule_from_partial : Bytes → RuleArg

-- one round of its loop: the constants are added to the mask
unfoldable pub add_arg : Rule → RuleArg → Rule
add_arg r (rule_type t) = record r { rules = r.rules + iks_rule_type; type = t }
add_arg r (rule_subtype t) = record r { rules = r.rules + iks_rule_subtype; subtype = t }
add_arg r (rule_id s) = record r { rules = r.rules + iks_rule_id; id = some s }
add_arg r (rule_ns s) = record r { rules = r.rules + iks_rule_ns; ns = some s }
add_arg r (rule_from s) = record r { rules = r.rules + iks_rule_from; from = some s }
add_arg r (rule_from_partial s) = record r {
  rules = r.rules + iks_rule_from_partial;
  from = some s;
}

unfoldable pub add_args : Rule → List RuleArg → Rule
add_args r [] = r
add_args r (a ∷ rest) = add_args (add_arg r a) rest

-- the cleared rule with its hook, at a fresh address
abbrev pub new_rule : ℕ → ℕ → ℕ → Rule
new_rule key hook user = record {
  key = key;
  user_data = user;
  filter_hook = hook;
  id = none;
  from = none;
  ns = none;
  score = 0;
  rules = 0;
  type = 0;
  subtype = 0;
}

-- `iks_filter_add_rule`, where memory is there: the rule is linked in at the end.
unfoldable pub filter_add_rule : List Rule → ℕ → ℕ → ℕ → List RuleArg → List Rule
filter_add_rule rules key hook user args = rules ++ add_args (new_rule key hook user) args ∷ []

-- `iks_filter_new`: a filter with no rules
unfoldable pub filter_new : (ℕ → Bool) → Option (List Rule)
filter_new malloc = if malloc 16 then some [] else none

-- How `iks_filter_add_rule` ends: a write through NULL, or its result and the rules.
pub data Added : Type 0 where
  crashed : Added
  added : Option ℕ → List Rule → Added

-- `iks_filter_add_rule` with its two requests for memory, of which the second is not tested
unfoldable pub filter_ask_rule : Bool → Bool → List Rule → ℕ → ℕ → ℕ → List RuleArg → Added
unfolding filter_add_rule
filter_ask_rule false rule_given rules key hook user args = added none rules
filter_ask_rule true false rules key hook user args = crashed
filter_ask_rule true true rules key hook user args =
    added (some key) (filter_add_rule rules key hook user args)

-- `iks_filter_delete`: the rules whose stacks are deleted, in this order, each one once
unfoldable pub filter_delete : List Rule → List ℕ
filter_delete [] = []
filter_delete (r ∷ rs) = r.key ∷ filter_delete rs
