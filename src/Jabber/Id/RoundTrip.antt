-- ===== src/Jabber/Id/RoundTrip.antt =====
-- Reading back an identifier that is put together from its parts.
use iksemel.Base.{
  ℕ, suc, ◌+◌, ◌≡◌, ◌≢◌, refl, ap, ◌∙◌, Bool, true, false, not, ◌&&◌, ◌==◌, Option, none, some, [],
  ◌∷◌, ◌++◌, Bytes, codes, eq_bytes, length, length-append, drop, take-append, arith,
}
use iksemel.Utility.Escape.{starts_with}
use iksemel.Jabber.Id.{strchr, skip_scheme, split_resource, split_user, id_new}

-- the byte does not occur
abbrev pub Without : ℕ → Bytes → Type 0
Without c [] = Unit
Without c (b ∷ bs) = (b ≢ c) × Without c bs

Without-append : (c : ℕ) (s t : Bytes) → Without c s → Without c t → Without c (s ++ t)
Without-append c [] t h k = k
Without-append c (b ∷ s) t (ne, h) k = (ne, Without-append c s t h k)

strchr-none : (c : ℕ) (s : Bytes) → Without c s → strchr s c ≡ none
unfolding strchr
strchr-none c [] h = refl
strchr-none c (b ∷ s) (ne, h) = let e : (b == c) ≡ false = ground arith in rw (e, strchr-none c s h)

strchr-here : (c : ℕ) (s t : Bytes) → Without c s → strchr (s ++ (c ∷ t)) c ≡ some (length s)
unfolding strchr
strchr-here c [] t h = let e : (c == c) ≡ true = ground arith in rw e
strchr-here c (b ∷ s) t (ne, h) =
    let e : (b == c) ≡ false = ground arith in rw (e, strchr-here c s t h)

drop-behind : (s t : Bytes) (c : ℕ) → drop (length s + 1) (s ++ (c ∷ t)) ≡ t
drop-behind [] t c = refl
drop-behind (b ∷ s) t c =
    let e : length (b ∷ s) + 1 ≡ suc (length s + 1) = omega arith in
    ap (λ n. drop n (b ∷ (s ++ (c ∷ t)))) e ∙ drop-behind s t c

-- the text in front of the resource
abbrev pub print_partial : Option Bytes → Bytes → Bytes
print_partial none server = server
print_partial (some user) server = user ++ (b'@' ∷ server)

abbrev pub add_resource : Bytes → Option Bytes → Bytes
add_resource partial none = partial
add_resource partial (some resource) = partial ++ (b'/' ∷ resource)

-- `user@server/resource`, without the parts that are not there
abbrev pub print_id : Option Bytes → Bytes → Option Bytes → Bytes
print_id user server resource = add_resource (print_partial user server) resource

-- a part of an identifier: some bytes, no delimiter among them
abbrev pub Part : Bytes → Type 0
Part s = (length s ≢ 0) × Without b'/' s × Without b'@' s

abbrev pub OptionalPart : Option Bytes → Type 0
OptionalPart none = Unit
OptionalPart (some s) = Part s

split_user_lem :
    (user : Option Bytes) (server : Bytes)
    → OptionalPart user
    → Part server
    → split_user (print_partial user server) ≡ (user, server)
unfolding split_user
split_user_lem none server u (some_server, slash, at) = rw (split_user, strchr-none b'@' server at)
split_user_lem (some user) server (some_user, slash', at') (some_server, slash, at) =
    let e : (length user == 0) ≡ false = ground arith in
    rw (
      split_user,
      strchr-here b'@' user server at',
      e,
      take-append user (b'@' ∷ server),
      drop-behind user server b'@',
    )

split_resource_lem :
    (partial : Bytes) (resource : Option Bytes)
    → length partial ≢ 0
    → Without b'/' partial
    → split_resource (add_resource partial resource) ≡ (partial, resource)
unfolding split_resource
split_resource_lem partial none ne h = rw (split_resource, strchr-none b'/' partial h)
split_resource_lem partial (some r) ne h =
    let e : (length partial == 0) ≡ false = ground arith in
    rw (
      split_resource,
      strchr-here b'/' partial r h,
      e,
      take-append partial (b'/' ∷ r),
      drop-behind partial r b'/',
    )

partial-Part :
    (user : Option Bytes) (server : Bytes)
    → OptionalPart user
    → Part server
    → (length (print_partial user server) ≢ 0) × Without b'/' (print_partial user server)
partial-Part none server u (ne, slash, at) = (ne, slash)
partial-Part (some user) server (ne', slash', at') (ne, slash, at) = (
  omega (arith, length-append user (b'@' ∷ server)),
  Without-append b'/' user (b'@' ∷ server) slash' (omega arith, slash),
)

-- the scheme, if it is there
abbrev pub scheme_text : Bool → Bytes
scheme_text true = codes "jabber:"
scheme_text false = []

skip_scheme_lem :
    (scheme : Bool) (text : Bytes)
    → (not scheme && starts_with (codes "jabber:") text) ≡ false
    → skip_scheme (scheme_text scheme ++ text) ≡ text
unfolding skip_scheme eq_bytes
skip_scheme_lem true text h = refl
skip_scheme_lem false text h = rw h

-- `iks_id_new` splits what is put together from a server, and maybe a user and a resource, into
-- these parts, where the user and the server are not empty and hold no '/' and no '@'. The scheme
-- "jabber:" may stand in front of it; without the scheme, the text does not begin like that.
pub id_new-print_id :
    (scheme : Bool) (user : Option Bytes) (server : Bytes) (resource : Option Bytes)
    → OptionalPart user
    → Part server
    → (not scheme && starts_with (codes "jabber:") (print_id user server resource)) ≡ false
    → id_new (some (scheme_text scheme ++ print_id user server resource))
      ≡ some (record {
        user = user;
        server = server;
        resource = resource;
        partial = print_partial user server;
        full = print_id user server resource;
      })
unfolding id_new split_user split_resource
id_new-print_id scheme user server resource u v one_scheme =
    let (ne, slash) = partial-Part user server u v in
    rw (
      skip_scheme_lem scheme (print_id user server resource) one_scheme,
      split_resource_lem (print_partial user server) resource ne slash,
      split_user_lem user server u v,
    )
