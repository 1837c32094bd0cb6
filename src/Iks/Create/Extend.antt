-- ===== src/Iks/Create/Extend.antt =====
-- `iks_insert_cdata` of src/iks.c on an element whose last child is text.
use iksemel.Base.{
  ℕ, suc, ◌+◌, ◌<◌, ◌==◌, Bool, true, false, if◌then◌else◌, none, some, List, [], ◌∷◌, ◌++◌, Option,
  Bytes, length, length-append, strlen, take-append, take_all, ◌≡◌, ◌≢◌, refl, sym, ◌∙◌, ap, arith,
}
use mathlib.Core.Path.{subst}
use iksemel.Iks.Heap.{
  Ptr, Node, cdata, Run, Heap, ok, load, load_tag, request, joined_string, write, dup,
}
use iksemel.Iks.Tree.{Att, Forest, last_from, text, empty, text_node}
use iksemel.Iks.Tree.Frame.{EachAtt-map, Each-map, Ends-map, HoldsAtts-Kept, last_from-append}
use iksemel.Iks.Tree.Element.{Element, Clear, last_or}
use iksemel.Iks.Tree.LastText.{
  with_text, last_or-with_text, element_node-with_text, Ends-with_text, Ends-before, Ends-last,
  HoldsTo-last, HoldsTo-with_text,
}
use iksemel.Iks.Create.Node.{length_of, extend_cdata, iks_insert_cdata}
use iksemel.Iks.Create.Lost.{iks_insert_cdata-lost}
use iksemel.Iks.Create.Steps.{write_here, write_other, modify_at}

dup-old : (old : Bytes) → dup old (length old) ≡ old
unfolding strlen
dup-old [] = refl
dup-old (c ∷ old) =
    let some_bytes : (length (c ∷ old) == 0) ≡ false = ground arith in
    rw (some_bytes, take_all (c ∷ old)) refl

module _ (string behind : Bytes) (nonempty : length string ≢ 0) where
  length_of-part : length_of (string ++ behind) (length string) ≡ length string
  length_of-part = let given : (length string == 0) ≡ false = ground arith in rw given

  dup-part : dup (string ++ behind) (length string) ≡ string
  dup-part =
      let given : (length string == 0) ≡ false = ground arith in
      rw (given, take-append string behind)

-- the nodes when the text behind the siblings `t` is longer
module _ (h : Heap) (s x l : ℕ) (parent prev next : Ptr) (own : Bytes) (atts : List Att)
    (t : Forest) (old : Bytes)
    (was : Element h.node h.fresh s x parent prev next own atts (with_text t l old)) where
  abbrev text_at : Bytes → ℕ → Option Node
  text_at chars = write h.node l (text_node s (some x) (last_from none t) none chars)

  last_clear : (l ≢ x) × (l < h.fresh)
  last_clear = let (_, lx, lt) = Ends-last _ _ l t old was.ends in (lx, lt)

  text_at-Element :
      (chars : Bytes)
      → Element (text_at chars) (suc h.fresh) s x parent prev next own atts (with_text t l chars)
  text_at-Element chars =
      let m = text_at chars in
      let (lx, lt) = last_clear in
      let under = was.under in
      let last = last_or-with_text x l t old in
      let last' = last_or-with_text x l t chars in
      let same_last : last_or x (with_text t l old) ≡ last_or x (with_text t l chars) =
        last ∙ sym last' in
      let kept : (a : ℕ) → Clear h.fresh x (last_or x (with_text t l old)) a → m a ≡ h.node a =
        λ a (_, al, _). write_other h.node l a _ (λ e. al (e ∙ sym last)) in
      let later : (a : ℕ)
          → Clear h.fresh x (last_or x (with_text t l old)) a
          → Clear (suc h.fresh) x (last_or x (with_text t l chars)) a =
        λ a (ax, al, lo). (ax, (λ e. al (e ∙ sym same_last)), omega arith) in
      record {
        here =
            write_other h.node l x _ (λ e. lx (sym e))
            ∙ was.here
            ∙ ap some (element_node-with_text s parent prev next own atts l t old chars);
        named = was.named;
        own =
            HoldsAtts-Kept h.node m s (some x) none atts (EachAtt-map kept atts was.clear) was.own;
        below =
            HoldsTo-with_text h.node m s (some x) l old chars none t
              (Each-map kept t (Ends-before _ _ l t old was.ends)) (write_here h.node l _)
              was.below;
        under = omega arith;
        clear = EachAtt-map later atts was.clear;
        ends = Ends-with_text _ _ l t old chars (
            Ends-map later (λ a (al, ax, lo). (al ∙ same_last, ax, omega arith)) (with_text t l old)
              was.ends);
      }

  -- What comes of more text: the last child has it behind its own text, and only that child has changed;
  -- or memory was refused, and its text is NULL, with the length of both.
  pub data Extended (string : Bytes) : Run Ptr → Type 0 where
    joined :
        (nodes : ℕ → Option Node)
        → h.grants h.fresh ≡ true
        → Element nodes (suc h.fresh) s x parent prev next own atts (with_text t l (old ++ string))
        → ((b : ℕ) → b ≢ l → nodes b ≡ h.node b)
        → Extended string (ok (some l) (record h { fresh = suc h.fresh; node = nodes }))
    lost :
        h.grants h.fresh ≡ false
        → Extended string (
            ok (some l) (record h {
              fresh = suc h.fresh;
              node = write h.node l (record (text_node s (some x) (last_from none t) none old) {
                body = cdata none (length old + length string);
              });
            }))

  module _ (string behind : Bytes) (nonempty : length string ≢ 0) where
    abbrev body_of : Bool → Node
    body_of b = record (text_node s (some x) (last_from none t) none old) {
      body = cdata (if b then some (old ++ string) else none) (length old + length string);
    }

    at_l : h.node l ≡ some (text_node s (some x) (last_from none t) none old)
    at_l = HoldsTo-last h.node h.node s (some x) l old old none t was.below

    insert_run :
        (b : Bool)
        → h.grants h.fresh ≡ b
        → iks_insert_cdata (some x) (some (string ++ behind)) (length string) h
          ≡ ok (some l) (record h { fresh = suc h.fresh; node = write h.node l (body_of b) })
    unfolding iks_insert_cdata extend_cdata joined_string request load load_tag
    insert_run true granted = rw (
      iks_insert_cdata,
      load,
      was.here,
      load_tag,
      load,
      was.here,
      last_from-append none t (text l old empty),
      load,
      at_l,
      extend_cdata,
      load,
      at_l,
      joined_string,
      request,
      granted,
      length_of-part string behind nonempty,
      dup-old old,
      dup-part string behind nonempty,
      modify_at (record h { fresh = suc h.fresh }) l _ at_l
          (λ n. record n { body = cdata (some (old ++ string)) (length old + length string) }),
    )
    insert_run false refused = rw (
      iks_insert_cdata-lost h s x l parent prev next (some x) (last_from none t) none own atts
          (with_text t l old) old (string ++ behind) (length string) was.here
          (last_from-append none t (text l old empty)) at_l refused,
      length_of-part string behind nonempty,
    )

    by_grant :
        (b : Bool)
        → h.grants h.fresh ≡ b
        → Extended string
            (ok (some l) (record h { fresh = suc h.fresh; node = write h.node l (body_of b) }))
    by_grant true granted =
        let size : length (old ++ string) ≡ length old + length string = length-append old string in
        let same : text_at (old ++ string) ≡ write h.node l (body_of true) =
          ap
            (λ n. write h.node l (record (text_node s (some x) (last_from none t) none old) {
              body = cdata (some (old ++ string)) n;
            }))
            size in
        subst (λ m. Extended string (ok (some l) (record h { fresh = suc h.fresh; node = m }))) same
          (joined (text_at (old ++ string)) granted (text_at-Element (old ++ string))
            (λ b bl. write_other h.node l b _ bl))
    by_grant false refused = lost refused

    -- On an element that the nodes hold, whose last child is text, `iks_insert_cdata` of the
    -- first bytes of a string, at least one, returns that child. Where memory is granted, the
    -- nodes hold the element with the bytes behind its text, and only that child has changed.
    -- Where memory is refused, the text of the child is NULL, though its length counts the old
    -- and the new bytes.
    pub iks_insert_cdata-Extended :
        Extended string (iks_insert_cdata (some x) (some (string ++ behind)) (length string) h)
    iks_insert_cdata-Extended =
        subst (Extended string) (sym (insert_run (h.grants h.fresh) refl))
          (by_grant (h.grants h.fresh) refl)
