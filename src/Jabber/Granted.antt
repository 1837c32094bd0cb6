-- ===== src/Jabber/Granted.antt =====
-- `iks_id_new` of src/jabber.c where its requests for memory are granted.
use iksemel.Base.{
  ℕ, suc, ◌+◌, Bool, true, false, not, ◌&&◌, Option, none, some, Bytes, codes, ◌++◌, drop, ◌≡◌,
  refl, ◌∙◌, ap,
}
use iksemel.Utility.Escape.{starts_with}
use iksemel.Iks.Heap.{Heap, ok, request}
use iksemel.Jabber.Id.{strchr, dup, skip_scheme, split_resource, split_user, id_new}
use iksemel.Jabber.Id.RoundTrip.{
  OptionalPart, Part, print_partial, print_id, scheme_text, id_new-print_id,
}
use iksemel.Jabber.Ask.{copy_of, ask_resource, ask_user, iks_id_new}

module _ (grants : ℕ → Bool) (all : (n : ℕ) → grants n ≡ true) where
  copy_of_lem :
      (part : Bytes) (h : Heap)
      → h.grants ≡ grants
      → copy_of part h ≡ ok (some part) (record h { fresh = suc h.fresh })
  unfolding copy_of request
  copy_of_lem part h e =
      let granted : h.grants h.fresh ≡ true = ap (λ f. f h.fresh) e ∙ all h.fresh in
      rw (copy_of, request, granted)

  abbrev fresh_behind : Option ℕ → ℕ → ℕ
  fresh_behind none n = n
  fresh_behind (some i) n = suc n

  ask_resource_lem :
      (src : Bytes) (at : Option ℕ) (h : Heap)
      → h.grants ≡ grants
      → ask_resource src at h
        ≡ ok
            (elim at as (λ x. Bytes × Option Bytes) [
              | none ↦ (src, none)
              | some i ↦ (dup src i, some (drop (i + 1) src))
            ])
            (record h { fresh = fresh_behind at h.fresh })
  ask_resource_lem src none h e = refl
  ask_resource_lem src (some i) h e = rw (copy_of_lem (dup src i) h e)

  ask_user_lem :
      (src : Bytes) (at : Option ℕ) (h : Heap)
      → h.grants ≡ grants
      → ask_user src at h
        ≡ ok
            (elim at as (λ x. Option Bytes × Bytes) [
              | none ↦ (none, src)
              | some i ↦ (some (dup src i), drop (i + 1) src)
            ])
            (record h { fresh = fresh_behind at h.fresh })
  ask_user_lem src none h e = refl
  ask_user_lem src (some i) h e = rw (copy_of_lem (dup src i) h e)

  -- It gives the parts of the identifier, and has changed nothing but asked for memory.
  iks_id_new-id_new :
      (jid : Bytes) (h : Heap)
      → h.grants ≡ grants
      → (n : ℕ) × (iks_id_new (some jid) h ≡ ok (id_new (some jid)) (record h { fresh = n }))
  unfolding iks_id_new request id_new split_resource split_user
  iks_id_new-id_new jid h e =
      let granted : h.grants h.fresh ≡ true = ap (λ f. f h.fresh) e ∙ all h.fresh in
      let src = skip_scheme jid in
      let h1 = record h { fresh = suc h.fresh } in
      let h2 = record h { fresh = suc (suc h.fresh) } in
      let at = strchr src b'/' in
      let h3 = record h { fresh = fresh_behind at (suc (suc h.fresh)) } in
      let r = split_resource src in
      (
        fresh_behind (strchr r.0 b'@') (fresh_behind at (suc (suc h.fresh))),
        rw (
          iks_id_new,
          request,
          granted,
          copy_of_lem src h1 e,
          ask_resource_lem src at h2 e,
          ask_user_lem r.0 (strchr r.0 b'@') h3 e,
        ),
      )

-- Where memory is granted, `iks_id_new` splits what is put together from a server, and maybe a user
-- and a resource, into these parts, and changes no node; the user and the server are not empty and
-- hold no '/' and no '@'. The scheme "jabber:" may stand in front of it; without the scheme, the
-- text does not begin like that.
pub iks_id_new-print_id :
    (h : Heap) (scheme : Bool) (user : Option Bytes) (server : Bytes) (resource : Option Bytes)
    → ((n : ℕ) → h.grants n ≡ true)
    → OptionalPart user
    → Part server
    → (not scheme && starts_with (codes "jabber:") (print_id user server resource)) ≡ false
    → (n : ℕ) × (iks_id_new (some (scheme_text scheme ++ print_id user server resource)) h
        ≡ ok
            (some (record {
              user = user;
              server = server;
              resource = resource;
              partial = print_partial user server;
              full = print_id user server resource;
            }))
            (record h { fresh = n }))
iks_id_new-print_id h scheme user server resource all u v one_scheme =
    let text = scheme_text scheme ++ print_id user server resource in
    let (n, run) = iks_id_new-id_new h.grants all text h refl in
    (
      n,
      run
          ∙ ap (λ i. ok i (record h { fresh = n }))
              (id_new-print_id scheme user server resource u v one_scheme),
    )
