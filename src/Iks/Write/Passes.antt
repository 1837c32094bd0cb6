-- ===== src/Iks/Write/Passes.antt =====
-- The two loops of `iks_string` in src/iks.c: the first one counts the bytes of the second.
use iksemel.Base.{ℕ, zero, suc, true, leb, Option, none, some, Bytes, length, ◌≡◌}
use iksemel.Iks.Heap.{Ptr, Node, Heap, Cmd, if_null, pure}
use iksemel.Iks.Create.{is_tag}
use iksemel.Iks.Write.{
  Pass, chars, Round, finished, again, closing, walk_attribs, to_next, to_parent, behind, visit,
  walk,
}
use iksemel.Iks.Sim.{
  Follows, Follows-pure, Follows-crash, Follows-starve, Follows-and_then, Follows-if,
  Follows-if_null, at_request, load-Reads, as_tag-Reads, as_cdata-Reads, as_attrib-Reads,
  non_null-Reads, load_tag-Reads,
}

-- one pass keeps what `f` makes of what another one keeps
pub record IsImage {S T : Type 0} (f : S → T) (p : Pass S) (q : Pass T) : Type 0 where
  pub start : (a : S) (n : Bytes) → q.start (f a) n ≡ f (p.start a n)
  pub attribute : (a : S) (n v : Bytes) → q.attribute (f a) n v ≡ f (p.attribute a n v)
  pub open_end : (a : S) → q.open_end (f a) ≡ f (p.open_end a)
  pub single_end : (a : S) → q.single_end (f a) ≡ f (p.single_end a)
  pub text : (a : S) (c : Bytes) → q.text (f a) c ≡ f (p.text a c)
  pub close : (a : S) (n : Bytes) → q.close (f a) n ≡ f (p.close a n)

abbrev pub on_round : {S T : Type 0} → (S → T) → Round S → Round T
on_round f (finished a) = finished (f a)
on_round f (again level down y a) = again level down y (f a)

module _ {S T : Type 0} (f : S → T) (p : Pass S) (q : Pass T) (image : IsImage f p q) (h : Heap)
    (k : ℕ) where
  abbrev Images : {A B : Type 0} → (A → B) → Cmd A → Cmd B → Type 0
  Images g c d = Follows g h (at_request k h) c d

  walk_attribs-Images :
      (fuel : ℕ) (z : Ptr) (a : S)
      → Images f (walk_attribs p fuel z a) (walk_attribs q fuel z (f a))
  unfolding walk_attribs
  walk_attribs-Images fuel none a = Follows-pure a
  walk_attribs-Images zero (some z) a = Follows-starve
  walk_attribs-Images (suc fuel) (some z) a = Follows-and_then _ _ (load-Reads h k (some z)) λ n.
      Follows-and_then _ _ (as_attrib-Reads h k n.body) λ b.
        Follows-and_then _ _ (non_null-Reads h k b.0) λ name.
          Follows-and_then _ _ (non_null-Reads h k b.1) λ value.
            rw (image.attribute a name value)
              (walk_attribs-Images fuel n.next (p.attribute a name value))

  started-Images :
      (fuel : ℕ) (z : Ptr) (a : S) (name : Bytes)
      → Images f
          (walk_attribs p fuel z (p.start a name))
          (walk_attribs q fuel z (q.start (f a) name))
  started-Images fuel z a name = rw (image.start a name) (walk_attribs-Images fuel z _)

  to_next-Images :
      (level : ℕ) (n : Node) (z : ℕ) (a : S)
      → Images (on_round f) (to_next p level n z a) (to_next q level n z (f a))
  unfolding to_next
  to_next-Images (suc l) n z a = Follows-pure _
  to_next-Images zero n z a = Follows-and_then _ _ (as_tag-Reads h k n.body) λ t.
      Follows-if_null t.children (Follows-pure _) λ c.
        Follows-and_then _ _ (non_null-Reads h k t.name)
          λ name. rw (image.close a name) (Follows-pure _)

  closing-Images :
      (l : ℕ) (y : Ptr) (a : S)
      → Images (on_round f) (pure (closing l y a)) (pure (closing l y (f a)))
  closing-Images zero y a = Follows-pure _
  closing-Images (suc l) y a = Follows-pure _

  to_parent-Images :
      (level : ℕ) (n : Node) (a : S)
      → Images (on_round f) (to_parent p level n a) (to_parent q level n (f a))
  unfolding to_parent
  to_parent-Images zero n a = Follows-pure _
  to_parent-Images (suc l) n a = Follows-and_then _ _ (load_tag-Reads h k n.parent) λ t.
      Follows-and_then _ _ (non_null-Reads h k t.name)
        λ name. rw (image.close a name) (closing-Images l n.parent _)

  behind-Images :
      (level : ℕ) (n : Node) (a : S)
      → Images (on_round f) (behind p level n a) (behind q level n (f a))
  unfolding behind
  behind-Images level n a =
      Follows-if_null n.next (to_parent-Images level n a) λ z. to_next-Images level n z a

  chars-Reads : (c : Option Bytes) (len : ℕ) → Images (λ b. b) (chars c len) (chars c len)
  chars-Reads none zero = Follows-pure _
  chars-Reads none (suc len) = Follows-crash
  chars-Reads (some c) len = Follows-if (leb len (length c)) (Follows-pure _) Follows-crash

  ends-Images :
      (level : ℕ) (n : Node) (children : Ptr) (a : S)
      → Images
          (on_round f)
          (if_null children
            (behind p level n (p.single_end a))
            λ c. pure (again (suc level) true (some c) (p.open_end a)))
          (if_null children
            (behind q level n (q.single_end (f a)))
            λ c. pure (again (suc level) true (some c) (q.open_end (f a))))
  ends-Images level n none a = rw (image.single_end a) (behind-Images level n _)
  ends-Images level n (some c) a = rw (image.open_end a) (Follows-pure _)

  visit-Images :
      (fuel level : ℕ) (n : Node) (a : S)
      → Images (on_round f) (visit p fuel level n a) (visit q fuel level n (f a))
  unfolding visit
  visit-Images fuel level n a =
      Follows-if (is_tag n.type)
        (Follows-and_then _ _ (as_tag-Reads h k n.body) λ t.
          Follows-and_then _ _ (non_null-Reads h k t.name) λ name.
            Follows-and_then _ _ (started-Images fuel t.attribs a name)
              λ inside. ends-Images level n t.children inside)
        (Follows-and_then _ _ (as_cdata-Reads h k n.body) λ d.
          Follows-and_then _ _ (chars-Reads d.0 d.1)
            λ text. rw (image.text a text) (behind-Images level n _))

  pub walk-Images : (fuel : ℕ) (r : Round S) → Images f (walk p fuel r) (walk q fuel (on_round f r))
  unfolding walk
  walk-Images fuel (finished a) = Follows-pure a
  walk-Images zero (again level down y a) = Follows-starve
  walk-Images (suc fuel) (again level down y a) = Follows-and_then _ _ (load-Reads h k y) λ n.
      Follows-and_then _ _ (Follows-if down (visit-Images fuel level n a) (behind-Images level n a))
        λ next. walk-Images fuel next
