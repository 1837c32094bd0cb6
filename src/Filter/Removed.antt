-- ===== src/Filter/Removed.antt =====
-- What `iks_filter_remove_rule` and `iks_filter_remove_hook` of src/filter.c leave in memory.
use iksemel.Base.{
  ℕ, zero, suc, ◌≤◌, ◌≡◌, refl, sym, ap, ◌∙◌, ◌==◌, if◌then◌else◌, none, some, List, [], ◌∷◌, ◌++◌,
  length, append_assoc, arith, Bool-cases, inl, inr,
}
use mathlib.Core.Path.{subst}
use iksemel.Filter.{Rule}
use iksemel.Filter.Links.{
  Links, Done, done, put, same_rule, filter_remove_rule, remove_hook_loop, filter_remove_hook,
}
use iksemel.Filter.Chain.{
  Fresh, without_hook, first, last, Chain, Holds, put_here, put_other, Keys-map, Keys-both,
  Fresh-Keys, Chain-agree, Chain-split, Chain-append, Distinct-Middle, Gone, Fresh-split,
  Fresh-append,
}
use iksemel.Filter.Relink.{set_next-last, set_prev-first, head_behind, tail_behind}

-- what comes of a run that takes out the rule between `a` and `b`
record TakenOut (f : Links) (a : List Rule) (r : Rule) (b : List Rule) : Type 0 where
  after : Links
  run : filter_remove_rule r.key f ≡ done after
  holds : Holds after (a ++ b)
  gone : after.cell r.key ≡ none
  same : (k : ℕ) → Fresh k (a ++ r ∷ b) → after.cell k ≡ f.cell k

filter_remove_rule-TakenOut :
    (f : Links) (a : List Rule) (r : Rule) (b : List Rule) → Holds f (a ++ r ∷ b) → TakenOut f a r b
unfolding filter_remove_rule
filter_remove_rule-TakenOut f a r b h =
    let mid = Distinct-Middle a r b h.distinct in
    let (ca, cr) = Chain-split f.cell none none a (r ∷ b) h.chain in
    let (here, cb) = cr in
    let s1 = set_next-last f (first none b) (some r.key) a mid.left ca in
    let f1 = record f { cell = s1.memory } in
    let here1 = s1.same r.key mid.out_left ∙ here in
    let cb1 : Chain s1.memory (some r.key) none b =
      Chain-agree f.cell s1.memory (some r.key) none b (Keys-map s1.same b mid.apart_right) cb in
    let s2 = set_prev-first f1 (last none a) (some r.key) b mid.right cb1 in
    let here2 = s2.same r.key mid.out_right ∙ here1 in
    let m = put s2.memory r.key none in
    let left : Chain m none (first none b) a =
      Chain-agree s1.memory m none (first none b) a
        (Keys-map (λ k (ne, fresh). put_other s2.memory r.key k none ne ∙ s2.same k fresh) a
          (Keys-both _ _ a (Fresh-Keys r.key a mid.out_left) mid.apart))
        s1.holds in
    let right : Chain m (last none a) none b =
      Chain-agree s2.memory m (last none a) none b
        (Keys-map (λ k ne. put_other s2.memory r.key k none ne) b
          (Fresh-Keys r.key b mid.out_right))
        s2.holds in
    record {
      after = record {
        rules = if same_rule f.rules r.key then first none b else f.rules;
        last_rule = if same_rule f.last_rule r.key then last none a else f.last_rule;
        cell = m;
      };
      run = rw (filter_remove_rule, here, s1.ran, here1, s2.ran, here2);
      holds = record {
        head = head_behind f.rules a r b h.head mid.out_left;
        tail = tail_behind f.last_rule a r b h.tail mid.out_right;
        chain = Chain-append m none none a b left right;
        distinct = mid.rest;
      };
      gone = put_here s2.memory r.key none;
      same = λ k apart.
          let (apart_a, apart_rb) = Fresh-split k a (r ∷ b) apart in
          let (ne, apart_b) = apart_rb in
          put_other s2.memory r.key k none (λ e. ne (sym e))
          ∙ s2.same k apart_b
          ∙ s1.same k apart_a;
    }

-- how the loop ends on `kept ++ rs`, with `rs` still to come
record Walked (run : Done) (f : Links) (hook : ℕ) (kept rs : List Rule) : Type 0 where
  after : Links
  ended : run ≡ done after
  holds : Holds after (kept ++ without_hook hook rs)
  gone : Gone hook after.cell rs
  same : (k : ℕ) → Fresh k (kept ++ rs) → after.cell k ≡ f.cell k

remove_hook_loop_lem :
    (fuel hook : ℕ) (kept rs : List Rule) (f : Links)
    → length rs ≤ fuel
    → Holds f (kept ++ rs)
    → Walked (remove_hook_loop fuel hook (first none rs) f) f hook kept rs
unfolding remove_hook_loop
remove_hook_loop_lem fuel hook kept [] f le h = record {
  after = f;
  ended = unfold remove_hook_loop in refl;
  holds = h;
  gone = tt;
  same = λ k apart. refl;
}
remove_hook_loop_lem zero hook kept (r ∷ rs) f le h = absurd (omega arith)
remove_hook_loop_lem (suc fuel) hook kept (r ∷ rs) f le h =
    let (_, cr) = Chain-split f.cell none none kept (r ∷ rs) h.chain in
    let (here, _) = cr in
    let mid = Distinct-Middle kept r rs h.distinct in
    elim (Bool-cases (r.filter_hook == hook)) [
      | inl hit ↦
          let t = filter_remove_rule-TakenOut f kept r rs h in
          let w = remove_hook_loop_lem fuel hook kept rs t.after (omega arith) t.holds in
          let freed_r =
            w.same r.key (Fresh-append r.key kept rs mid.out_left mid.out_right) ∙ t.gone in
          record {
            after = w.after;
            ended = rw (remove_hook_loop, here, hit, t.run) w.ended;
            holds = rw hit w.holds;
            gone = (rw hit freed_r, w.gone);
            same = λ k apart.
                let (l, lr) = Fresh-split k kept (r ∷ rs) apart in
                let (_, g) = lr in w.same k (Fresh-append k kept rs l g) ∙ t.same k apart;
          }
      | inr miss ↦
          let w =
            remove_hook_loop_lem fuel hook (kept ++ r ∷ []) rs f (omega arith)
              (subst (Holds f) (sym (append_assoc kept (r ∷ []) rs)) h) in
          record {
            after = w.after;
            ended = rw (remove_hook_loop, here, miss) w.ended;
            holds =
                rw miss (
                  subst (Holds w.after) (append_assoc kept (r ∷ []) (without_hook hook rs))
                    w.holds);
            gone = (rw miss refl, w.gone);
            same =
                λ k apart. w.same k (subst (Fresh k) (sym (append_assoc kept (r ∷ []) rs)) apart);
          }
    ]

-- Where the memory holds the rules of a filter, each at an address of its own and linked to both
-- sides, and with fuel for them, `iks_filter_remove_hook` ends without a touch of freed memory, and the
-- memory holds, linked to both sides, exactly the rules with another hook, in their order. The rules
-- with the hook are freed, and nothing changes at addresses where no rule of the filter stood.
pub filter_remove_hook-Holds :
    (fuel hook : ℕ) (rs : List Rule) (f : Links)
    → length rs ≤ fuel
    → Holds f rs
    → (after : Links) × (filter_remove_hook fuel f hook ≡ done after)
      × Holds after (without_hook hook rs)
      × Gone hook after.cell rs
      × ((k : ℕ) → Fresh k rs → after.cell k ≡ f.cell k)
unfolding filter_remove_hook
filter_remove_hook-Holds fuel hook rs f le h =
    let w = remove_hook_loop_lem fuel hook [] rs f le h in
    (w.after, ap (λ p. remove_hook_loop fuel hook p f) h.head ∙ w.ended, w.holds, w.gone, w.same)
