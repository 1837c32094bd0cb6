-- ===== src/Filter/Links.antt =====
-- The list of src/filter.c in memory: `iks_filter_remove_rule` and `iks_filter_remove_hook` on rules at
-- their addresses, linked to both sides.
use iksemel.Base.{ℕ, zero, suc, Bool, false, ◌==◌, if◌then◌else◌, Option, none, some}
use iksemel.Filter.{Rule}

-- `next` and `prev` of a rule, beside what it tests
pub record Cell : Type 0 where
  pub rule : Rule
  pub prev : Option ℕ
  pub next : Option ℕ

-- `struct iksfilter_struct`, and the rules at their addresses; no rule stands in freed memory
pub record Links : Type 0 where
  pub rules : Option ℕ
  pub last_rule : Option ℕ
  pub cell : ℕ → Option Cell

-- How a run ends: a read or write of freed memory, fuel used up, or the filter.
pub data Done : Type 0 where
  freed unfinished : Done
  done : Links → Done

abbrev pub put : (ℕ → Option Cell) → ℕ → Option Cell → ℕ → Option Cell
put m a c b = if b == a then c else m b

-- `*p`, and what follows
abbrev pub at_cell : Option Cell → (Cell → Done) → Done
at_cell none next = freed
at_cell (some c) next = next c

abbrev pub and_then : Done → (Links → Done) → Done
and_then freed next = freed
and_then unfinished next = unfinished
and_then (done f) next = next f

-- `if (p) p->next = q;`
abbrev pub set_next : Option ℕ → Option ℕ → Links → Done
set_next none q f = done f
set_next (some p) q f =
    at_cell (f.cell p) λ c. done (record f { cell = put f.cell p (some (record c { next = q })) })

-- `if (p) p->prev = q;`
abbrev pub set_prev : Option ℕ → Option ℕ → Links → Done
set_prev none q f = done f
set_prev (some p) q f =
    at_cell (f.cell p) λ c. done (record f { cell = put f.cell p (some (record c { prev = q })) })

abbrev pub same_rule : Option ℕ → ℕ → Bool
same_rule none rule = false
same_rule (some p) rule = p == rule

-- the last three lines of `iks_filter_remove_rule`, which read the rule again
abbrev pub take_out : ℕ → Links → Done
take_out rule f = at_cell (f.cell rule) λ c. done (record {
  rules = if same_rule f.rules rule then c.next else f.rules;
  last_rule = if same_rule f.last_rule rule then c.prev else f.last_rule;
  cell = put f.cell rule none;
})

-- `iks_filter_remove_rule`
unfoldable pub filter_remove_rule : ℕ → Links → Done
filter_remove_rule rule f = at_cell (f.cell rule) λ c.
    and_then (set_next c.prev c.next f)
      λ f1. at_cell (f1.cell rule) λ c1. and_then (set_prev c1.next c1.prev f1) (take_out rule)

-- the loop of `iks_filter_remove_hook`, which reads `next` before the rule is freed
unfoldable pub remove_hook_loop : ℕ → ℕ → Option ℕ → Links → Done
remove_hook_loop fuel hook none f = done f
remove_hook_loop zero hook (some rule) f = unfinished
remove_hook_loop (suc fuel) hook (some rule) f = at_cell (f.cell rule) λ c.
    and_then (if c.rule.filter_hook == hook then filter_remove_rule rule f else done f)
      λ f1. remove_hook_loop fuel hook c.next f1

-- `iks_filter_remove_hook`, with fuel for the rules
unfoldable pub filter_remove_hook : ℕ → Links → ℕ → Done
unfolding remove_hook_loop
filter_remove_hook fuel f hook = remove_hook_loop fuel hook f.rules f
