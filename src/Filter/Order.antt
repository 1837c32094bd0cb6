-- ===== src/Filter/Order.antt =====
-- The order in which `iks_filter_packet` calls the hooks.
use mathlib.Core.List.{Perm, perm_middle}
use mathlib.Core.List.Perm
use mathlib.Core.Path.{subst}
use iksemel.Base.{
  ℕ, zero, suc, ◌+◌, ◌≤◌, ◌<◌, ◌≡◌, refl, ap, ◌∙◌, Bool, true, false, ltb, if◌then◌else◌, Option,
  none, some, List, [], ◌∷◌, ◌++◌, map, arith, length, length-append, length-map,
}
use iksemel.Filter.{
  Rule, Packet, score_of, score_rules, find_max, clear_score, rule_at, call_hooks, filter_packet,
}

-- no score above `b`
abbrev pub AtMost : ℕ → List Rule → Type 0
AtMost b [] = Unit {0}
AtMost b (r ∷ rs) = (r.score ≤ b) × AtMost b rs

-- from the highest score down
abbrev pub Descending : List Rule → Type 0
Descending [] = Unit {0}
Descending (r ∷ rs) = AtMost r.score rs × Descending rs

-- the rules that a packet matches
abbrev pub positives : List Rule → List Rule
positives [] = []
positives (r ∷ rs) = if ltb 0 r.score then r ∷ positives rs else positives rs

abbrev pub scored : Packet → Rule → Rule
scored pak r = record r { score = score_of r pak }

-- the client's state behind the calls of these hooks in order, up to the first that eats the packet
pub run_order : {S : Type 0} → (Rule → Packet → S → Bool × S) → Packet → List Rule → S → S
run_order hook pak [] s = s
run_order hook pak (r ∷ rs) s =
    let rest = run_order hook pak rs (hook r pak s).1 in
    elim ((hook r pak s).0) [ true ↦ (hook r pak s).1 | false ↦ rest ]

AtMost-append : (b : ℕ) (xs ys : List Rule) → AtMost b xs → AtMost b ys → AtMost b (xs ++ ys)
AtMost-append b [] ys h k = k
AtMost-append b (r ∷ xs) ys (a, h) k = (a, AtMost-append b xs ys h k)

AtMost-split : (b : ℕ) (xs ys : List Rule) → AtMost b (xs ++ ys) → AtMost b xs × AtMost b ys
AtMost-split b [] ys h = (tt, h)
AtMost-split b (r ∷ xs) ys (a, h) = let (k, l) = AtMost-split b xs ys h in ((a, k), l)

AtMost-mono : (a b : ℕ) (xs : List Rule) → a ≤ b → AtMost a xs → AtMost b xs
AtMost-mono a b [] le h = tt
AtMost-mono a b (r ∷ xs) le (k, h) = (omega arith, AtMost-mono a b xs le h)

positives-append : (xs ys : List Rule) → positives (xs ++ ys) ≡ positives xs ++ positives ys
positives-append [] ys = refl
positives-append (r ∷ xs) ys = ground (arith, positives-append xs ys)

positives-AtMost_zero : (xs : List Rule) → AtMost 0 xs → positives xs ≡ []
positives-AtMost_zero [] h = refl
positives-AtMost_zero (r ∷ xs) (a, h) = ground (arith, positives-AtMost_zero xs h)

length-positives : (xs : List Rule) → length (positives xs) ≤ length xs
length-positives [] = omega arith
length-positives (r ∷ xs) = ground (arith, length-positives xs)

-- What `find_max` finds from place `i` on, with the highest score `max` so far.
data Found (i : ℕ) (best : Option ℕ) (max : ℕ) (rules : List Rule) : Option ℕ → Type 0 where
  kept : (o : Option ℕ) → AtMost max rules → o ≡ best → Found i best max rules o
  found :
      (pre post : List Rule) (r : Rule) (o : Option ℕ)
      → rules ≡ pre ++ r ∷ post
      → o ≡ some (i + length pre)
      → max < r.score
      → AtMost r.score rules
      → Found i best max rules o

Found-cons :
    (i : ℕ) (best : Option ℕ) (max : ℕ) (r : Rule) (rs : List Rule) {o : Option ℕ} (higher : Bool)
    → ltb max r.score ≡ higher
    → Found (i + 1) (if higher then some i else best) (if higher then r.score else max) rs o
    → Found i best max (r ∷ rs) o
Found-cons i best max r rs true up (kept o h e) =
    found [] rs r o refl (e ∙ ap some (omega arith)) (ground (arith, up)) (omega arith, h)
Found-cons i best max r rs true up (found pre post r' o e at lt h) =
    found (r ∷ pre) post r' o (ap (λ t. r ∷ t) e) (at ∙ ap some (omega arith)) (ground (arith, up))
      (omega arith, h)
Found-cons i best max r rs false up (kept o h e) = kept o (ground (arith, up), h) e
Found-cons i best max r rs false up (found pre post r' o e at lt h) =
    found (r ∷ pre) post r' o (ap (λ t. r ∷ t) e) (at ∙ ap some (omega arith)) lt
      (ground (arith, up), h)

find_max-Found :
    (i : ℕ) (best : Option ℕ) (max : ℕ) (rules : List Rule)
    → Found i best max rules (find_max i best max rules)
unfolding find_max
find_max-Found i best max [] = kept best tt refl
find_max-Found i best max (r ∷ rs) =
    Found-cons i best max r rs (ltb max r.score) refl (find_max-Found (i + 1) _ _ rs)

clear_score-split :
    (pre post : List Rule) (r : Rule)
    → clear_score (length pre) (pre ++ r ∷ post) ≡ pre ++ (record r { score = 0 }) ∷ post
unfolding clear_score
clear_score-split [] post r = refl
clear_score-split (x ∷ pre) post r = ap (λ t. x ∷ t) (clear_score-split pre post r)

rule_at-split : (pre post : List Rule) (r : Rule) → rule_at (length pre) (pre ++ r ∷ post) ≡ some r
unfolding rule_at
rule_at-split [] post r = refl
rule_at-split (x ∷ pre) post r = rule_at-split pre post r

score_rules_lem :
    (pak : Packet) (i : ℕ) (best : Option ℕ) (max : ℕ) (rules : List Rule)
    → score_rules pak i best max rules
      ≡ (map (scored pak) rules, find_max i best max (map (scored pak) rules))
unfolding score_rules find_max
score_rules_lem pak i best max [] = refl
score_rules_lem pak i best max (r ∷ rs) = rw (score_rules_lem pak (i + 1) _ _ rs)

-- Clearing the score of the one that was called takes it out of the matching rules.
positives_cleared :
    (pre post : List Rule) (r : Rule)
    → positives (pre ++ (record r { score = 0 }) ∷ post) ≡ positives pre ++ positives post
positives_cleared pre post r = positives-append pre ((record r { score = 0 }) ∷ post)

positives_split :
    (pre post : List Rule) (r : Rule)
    → 0 < r.score
    → positives (pre ++ r ∷ post) ≡ positives pre ++ r ∷ positives post
positives_split pre post r h =
    positives-append pre (r ∷ post) ∙ ap (λ t. positives pre ++ t) (ground arith)

AtMost-cleared :
    (b : ℕ) (pre post : List Rule) (r : Rule)
    → AtMost b (pre ++ r ∷ post)
    → AtMost b (pre ++ (record r { score = 0 }) ∷ post)
AtMost-cleared b pre post r h =
    let (k, (a, l)) = AtMost-split b pre (r ∷ post) h in
    AtMost-append b pre ((record r { score = 0 }) ∷ post) k (omega arith, l)

-- The calls of the second loop: `order` has the matching rules, from the highest score down.
record Dispatch {S : Type 0} (hook : Rule → Packet → S → Bool × S) (pak : Packet) (fuel : ℕ)
    (rules : List Rule) (best : Option ℕ) (s : S) : Type 0 where
  order : List Rule
  perm : Perm order (positives rules)
  descending : Descending order
  bounded : (b : ℕ) → AtMost b rules → AtMost b order
  left : List Rule
  runs : call_hooks hook pak fuel rules best s ≡ some (left, run_order hook pak order s)

module _ {S : Type 0} (hook : Rule → Packet → S → Bool × S) (pak : Packet) where
  first_call_runs :
      (pre post : List Rule) (r : Rule) (fuel : ℕ) (s : S) (eaten : Bool)
      → (hook r pak s).0 ≡ eaten
      → (rest : Dispatch hook pak fuel
          (pre ++ (record r { score = 0 }) ∷ post)
          (find_max 0 none 0 (pre ++ (record r { score = 0 }) ∷ post))
          (hook r pak s).1)
      → call_hooks hook pak (suc fuel) (pre ++ r ∷ post) (some (0 + length pre)) s
        ≡ some (
          elim eaten [ true ↦ pre ++ r ∷ post | false ↦ rest.left ],
          run_order hook pak (r ∷ rest.order) s,
        )
  unfolding call_hooks run_order
  first_call_runs pre post r fuel s true e rest =
      let z : 0 + length pre ≡ length pre = omega arith in
      ground (arith, ap (λ i. rule_at i (pre ++ r ∷ post)) z, rule_at-split pre post r)
  first_call_runs pre post r fuel s false e rest =
      let z : 0 + length pre ≡ length pre = omega arith in
      ground (
        arith,
        ap (λ i. rule_at i (pre ++ r ∷ post)) z,
        ap (λ i. clear_score i (pre ++ r ∷ post)) z,
        rule_at-split pre post r,
        clear_score-split pre post r,
        rest.runs,
      )

  -- the call of one hook, in front of what follows it
  first_call :
      (pre post : List Rule) (r : Rule) (fuel : ℕ) (s : S) (eaten : Bool)
      → (hook r pak s).0 ≡ eaten
      → positives (pre ++ r ∷ post) ≡ positives pre ++ r ∷ positives post
      → AtMost r.score (pre ++ r ∷ post)
      → Dispatch hook pak fuel
          (pre ++ (record r { score = 0 }) ∷ post)
          (find_max 0 none 0 (pre ++ (record r { score = 0 }) ∷ post))
          (hook r pak s).1
      → Dispatch hook pak (suc fuel) (pre ++ r ∷ post) (some (0 + length pre)) s
  unfolding call_hooks run_order
  first_call pre post r fuel s eaten e split h rest = record {
    order = r ∷ rest.order;
    perm = rw split (
        Perm.trans (Perm.cons r (subst (Perm rest.order) (positives_cleared pre post r) rest.perm))
          (Perm.symm (perm_middle (positives pre) (positives post))));
    descending = (rest.bounded r.score (AtMost-cleared r.score pre post r h), rest.descending);
    bounded = λ b k.
        ((AtMost-split b pre (r ∷ post) k).1.0, rest.bounded b (AtMost-cleared b pre post r k));
    left = elim eaten [ true ↦ pre ++ r ∷ post | false ↦ rest.left ];
    runs = first_call_runs pre post r fuel s eaten e rest;
  }

  call_hooks-Dispatch :
      (fuel : ℕ) (rules : List Rule) (s : S) {o : Option ℕ}
      → length (positives rules) < fuel
      → Found 0 none 0 rules o
      → Dispatch hook pak fuel rules o s
  unfolding call_hooks run_order
  call_hooks-Dispatch zero rules s enough w = absurd (omega arith)
  call_hooks-Dispatch (suc fuel) rules s enough (kept o h e) = record {
    order = [];
    perm = rw (positives-AtMost_zero rules h) (Perm.refl []);
    descending = tt;
    bounded = λ b k. tt;
    left = rules;
    runs = rw e;
  }
  call_hooks-Dispatch (suc fuel) rules s enough (found pre post r o e at lt h) =
      let h' : AtMost r.score (pre ++ r ∷ post) = subst (AtMost r.score) e h in
      let split = positives_split pre post r lt in
      let rules' = pre ++ (record r { score = 0 }) ∷ post in
      let rest =
        call_hooks-Dispatch fuel rules' (hook r pak s).1 {o = find_max 0 none 0 rules'}
          (omega (
            arith,
            ap length (positives_cleared pre post r),
            length-append (positives pre) (positives post),
            length-append (positives pre) (r ∷ positives post),
            ap length split,
            ap (λ (t : List Rule). length (positives t)) e,
          ))
          (find_max-Found 0 none 0 rules') in
      rw (e, at) (first_call pre post r fuel s (hook r pak s).0 refl split h' rest)

-- `iks_filter_packet` ends, and calls the hooks of the rules with a score above 0, from the
-- highest score down, up to the first hook that eats the packet.
pub filter_packet-order :
    {S : Type 0} (hook : Rule → Packet → S → Bool × S) (pak : Packet) (rules : List Rule) (s : S)
    → (order : List Rule) × Perm order (positives (map (scored pak) rules))
      × Descending order
      × ((left : List Rule) × (filter_packet hook pak rules s
            ≡ some (left, run_order hook pak order s)))
unfolding filter_packet
filter_packet-order hook pak rules s =
    let rules' = map (scored pak) rules in
    let calls =
      call_hooks-Dispatch hook pak (length rules + 1) rules' s
        (omega (arith, length-positives rules', length-map rules (scored pak)))
        (find_max-Found 0 none 0 rules') in
    (
      calls.order,
      calls.perm,
      calls.descending,
      (calls.left, rw (score_rules_lem pak 0 none 0 rules) calls.runs),
    )
