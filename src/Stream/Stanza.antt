-- ===== src/Stream/Stanza.antt =====
-- What the hooks of src/stream.c hand to the client.
use iksemel.Base.{
  ℕ, suc, ◌<◌, false, ◌&&◌, Option, none, some, List, [], ◌∷◌, Bytes, codes, eq_bytes, ◌≡◌, refl,
  arith, Bool-cases, inl, inr,
}
use iksemel.Sax.Types.{iks_single}
use iksemel.Iks.Heap.{Ptr, iks_tag, Heap, ok, request, put_node, new_string, write}
use iksemel.Iks.Create.{iks_new, iks_new_within, iks_insert_attrib, blank, no_tag}
use iksemel.Dom.{insert_atts}
use iksemel.Iks.Create.Made.{with_new}
use iksemel.Iks.Create.Steps.{write_other}
use iksemel.Iks.Tree.{empty, element_node, IsText}
use iksemel.Stream.Types.{iks_node_stop, Conn, Outside}
use iksemel.Stream.Hooks.{put_attribs, close_tag, enter, open_node, open_tag, stream_tag}

-- the stream while this element is open, and no request for TLS is under way
abbrev pub at_node : {W : Type 0} → Conn W → Ptr → Conn W
at_node c p = record c { stream = record c.stream { current = p; try_secure = false } }

-- a name of a stanza that is handed on as it is
pub record IsPlain (name : Bytes) : Type 0 where
  pub text : IsText name
  pub no_stream : eq_bytes name (codes "stream:stream") ≡ false
  pub no_challenge : eq_bytes name (codes "challenge") ≡ false
  pub no_error : eq_bytes name (codes "stream:error") ≡ false

-- the heap with a new element, on a new stack
abbrev pub with_stanza : Heap → Bytes → Heap
with_stanza h name =
    with_new (record h { fresh = suc h.fresh }) (element_node h.fresh none none none name [] empty)

-- every name of a list of names and values has its value
abbrev pub AllPaired : List Bytes → Type 0
AllPaired [] = Unit
AllPaired (n ∷ []) = ⊥
AllPaired (n ∷ v ∷ l) = AllPaired l

abbrev pub Paired : Option (List Bytes) → Type 0
Paired none = Unit
Paired (some l) = AllPaired l

-- `insert_attribs` does nothing on NULL, for names that have values.
insert_atts-null :
    (fuel : ℕ) (k : Heap) (l : List Bytes) → AllPaired l → insert_atts fuel none l k ≡ ok tt k
unfolding insert_atts iks_insert_attrib
insert_atts-null fuel k [] p = refl
insert_atts-null fuel k (n ∷ []) p = absurd p
insert_atts-null fuel k (n ∷ v ∷ l) p = insert_atts-null fuel k l p

put_attribs-null :
    {W : Type 0} (fuel : ℕ) (c : Conn W) (k : Heap) (a : Option (List Bytes))
    → Paired a
    → put_attribs fuel none a c k ≡ ok (tt, c) k
unfolding put_attribs
put_attribs-null fuel c k none p = refl
put_attribs-null fuel c k (some l) p = rw (insert_atts-null fuel k l p) refl

module _ {W : Type 0} (o : Outside W) (fuel : ℕ) (c : Conn W) (name : Bytes) where
  module _ (atts : Option (List Bytes)) (h : Heap) where
    -- what a tag leaves whose element could not be made
    pub record Lost : Type 0 where
      pub after : Heap
      pub run :
          stream_tag o fuel name atts iks_single (at_node c none) h
          ≡ o.stream_hook c.stream.user_data iks_node_stop none (at_node c none) after
      pub others : (a : ℕ) → a < h.fresh → after.node a ≡ h.node a

    lost_by :
        (after : Heap)
        → Paired atts
        → eq_bytes name (codes "stream:stream") ≡ false
        → iks_new (some name) h ≡ ok none after
        → ((a : ℕ) → a < h.fresh → after.node a ≡ h.node a)
        → Lost
    unfolding stream_tag open_tag open_node enter close_tag
    lost_by after pairs no_stream made same = record {
      after = after;
      run = rw (
        stream_tag,
        open_tag,
        open_node,
        made,
        put_attribs-null fuel (at_node c none) after atts pairs,
        no_stream,
        enter,
        close_tag,
      );
      others = same;
    }

    -- Between stanzas, and with no request for TLS under way, the tag of an empty element for which
    -- one of the three requests for memory is refused is taken for the end of the stream: the client's hook
    -- gets IKS_NODE_STOP and NULL, and every node that was there is as it was. The name is not
    -- `stream:stream`, and the attributes have values.
    pub stream_tag-Lost :
        Paired atts
        → eq_bytes name (codes "stream:stream") ≡ false
        → (h.grants h.fresh && h.grants (suc h.fresh) && h.grants (suc (suc h.fresh))) ≡ false
        → Lost
    unfolding iks_new iks_new_within request new_string put_node
    stream_tag-Lost pairs no_stream refused = elim (Bool-cases (h.grants h.fresh)) [
      | inr g0 ↦
          lost_by (record h { fresh = suc h.fresh }) pairs no_stream (rw (iks_new, request, g0))
            (λ a lt. refl)
      | inl g0 ↦ elim (Bool-cases (h.grants (suc h.fresh))) [
        | inr g1 ↦
            lost_by (record h { fresh = suc (suc h.fresh) }) pairs no_stream
              (rw (iks_new, request, g0, iks_new_within, request, g1)) (λ a lt. refl)
        | inl g1 ↦ elim (Bool-cases (h.grants (suc (suc h.fresh)))) [
          | inl g2 ↦ absurd cc
          | inr g2 ↦
              lost_by
                (record h {
                  fresh = suc (suc (suc h.fresh));
                  node = write h.node (suc h.fresh) (blank h.fresh iks_tag (no_tag none));
                })
                pairs no_stream
                (rw (
                  iks_new, request, g0, iks_new_within, request, g1, put_node, new_string, request,
                  g2,
                ))
                (λ a lt. write_other h.node (suc h.fresh) a _ (ground arith))
        ]
      ]
    ]
