-- ===== src/Jabber/Id.antt =====
-- `iks_id_new` and `iks_id_cmp` of src/jabber.c, where the stack has room. A pointer into a string
-- is the rest of the string.
pub mod RoundTrip
pub mod Compare
use iksemel.Base.{
  ℕ, zero, suc, ◌+◌, bit_and, Bool, true, false, not, ◌&&◌, ◌||◌, ◌==◌, ltb, leb, if◌then◌else◌,
  Option, none, some, [], ◌∷◌, ◌++◌, Bytes, codes, take, drop, map, eq_bytes,
}
use iksemel.Utility.Escape.{starts_with}

-- `iksid`
pub record IksId : Type 0 where
  pub user : Option Bytes
  pub server : Bytes
  pub resource : Option Bytes
  pub partial : Bytes
  pub full : Bytes

-- the place that `strchr` finds
unfoldable pub strchr : Bytes → ℕ → Option ℕ
strchr [] c = none
strchr (b ∷ bs) c =
    let rest = strchr bs c in
    if b == c then some 0 else elim rest as (λ x. Option ℕ) [ none ↦ none | some i ↦ some (suc i) ]

-- What `iks_stack_strdup` copies: a length of 0 stands for the whole string.
abbrev pub dup : Bytes → ℕ → Bytes
dup src n = if n == 0 then src else take n src

-- `/* skip scheme */`
unfoldable pub skip_scheme : Bytes → Bytes
skip_scheme jid = if starts_with (codes "jabber:") jid then drop 7 jid else jid

-- `/* split resource */`: the part in front of it, and the resource
unfoldable pub split_resource : Bytes → Bytes × Option Bytes
split_resource src = elim (strchr src b'/') [
  | none ↦ (src, none)
  | some i ↦ (dup src i, some (drop (i + 1) src))
]

-- `/* split user */`: the user, and the server
unfoldable pub split_user : Bytes → Option Bytes × Bytes
split_user src = elim (strchr src b'@') [
  | none ↦ (none, src)
  | some i ↦ (some (dup src i), drop (i + 1) src)
]

-- `iks_id_new`
unfoldable pub id_new : Option Bytes → Option IksId
id_new none = none
id_new (some jid) =
    let full = skip_scheme jid in
    let (partial, resource) = split_resource full in
    let (user, server) = split_user partial in
    some
      (record { user = user; server = server; resource = resource; partial = partial; full = full })

abbrev pub iks_id_user : ℕ
iks_id_user = 1

abbrev pub iks_id_server : ℕ
iks_id_server = 2

abbrev pub iks_id_resource : ℕ
iks_id_resource = 4

-- `tolower` on ASCII
abbrev pub lower : ℕ → ℕ
lower c = if leb 65 c && leb c 90 then c + 32 else c

-- `!(!a && !b) && f (a, b) != 0`, where `f` is not 0 for NULL
unfoldable pub differs : (Bytes → Bytes → Bool) → Option Bytes → Option Bytes → Bool
differs same none none = false
differs same none (some b) = true
differs same (some a) none = true
differs same (some a) (some b) = not (same a b)

abbrev pub same_letters : Bytes → Bytes → Bool
same_letters a b = eq_bytes (map lower a) (map lower b)

-- one of the three tests of `iks_id_cmp`
abbrev pub part_diff : ℕ → ℕ → Bool → ℕ
part_diff parts part differ = if not (bit_and parts part == 0) && differ then part else 0

-- `iks_id_cmp`
unfoldable pub id_cmp : Option IksId → Option IksId → ℕ → ℕ
id_cmp none b parts = 7
id_cmp (some a) none parts = 7
id_cmp (some a) (some b) parts =
    part_diff parts iks_id_resource (differs eq_bytes a.resource b.resource)
    + part_diff parts iks_id_user (differs same_letters a.user b.user)
    + part_diff parts iks_id_server (differs eq_bytes (some a.server) (some b.server))
