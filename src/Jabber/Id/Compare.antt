-- ===== src/Jabber/Id/Compare.antt =====
-- What `iks_id_cmp` of src/jabber.c compares.
use iksemel.Base.{
  ℕ, bit_and, Bool, true, false, not, ◌&&◌, ◌==◌, if◌then◌else◌, Option, none, some, Bytes, map,
  eq_bytes, eq_bytes_iff, ◌≡◌, refl, ◌↔◌, ◌≢◌, arith,
}
use iksemel.Jabber.Id.{
  IksId, iks_id_user, iks_id_server, iks_id_resource, differs, same_letters, lower, part_diff,
  id_cmp,
}

-- a part is not asked for, or it is the same
abbrev pub AgreesOn : ℕ → ℕ → Type 0 → Type 0
AgreesOn parts part A = bit_and parts part ≢ 0 → A

abbrev pub lower_text : Option Bytes → Option Bytes
lower_text none = none
lower_text (some s) = some (map lower s)

differs-eq_bytes : (a b : Option Bytes) → (differs eq_bytes a b ≡ false) ↔ (a ≡ b)
unfolding differs
differs-eq_bytes none none = ground arith
differs-eq_bytes none (some b) = ground arith
differs-eq_bytes (some a) none = ground arith
differs-eq_bytes (some a) (some b) = let same = eq_bytes_iff a b in ground arith

differs-same_letters :
    (a b : Option Bytes) → (differs same_letters a b ≡ false) ↔ (lower_text a ≡ lower_text b)
unfolding differs
differs-same_letters none none = ground arith
differs-same_letters none (some b) = ground arith
differs-same_letters (some a) none = ground arith
differs-same_letters (some a) (some b) =
    let same = eq_bytes_iff (map lower a) (map lower b) in ground arith

part_diff-AgreesOn :
    (parts part : ℕ) (d : Bool) (A : Type 0)
    → part ≢ 0
    → (d ≡ false) ↔ A
    → (part_diff parts part d ≡ 0) ↔ AgreesOn parts part A
part_diff-AgreesOn parts part d A ne (to, from) = (
  λ e asked. to (ground arith),
  λ agrees.
      elim (bit_and parts part == 0)
          as (λ z. (bit_and parts part == 0) ≡ z → (if not z && d then part else 0) ≡ 0) [
            | true ↦ λ e. refl
            | false ↦ λ e. let same : d ≡ false = from (agrees (ground arith)) in rw same
          ]
        refl,
)

-- `iks_id_cmp` of two identifiers returns 0 exactly if they agree on each part that is asked for:
-- on the resource and the server byte by byte, and on the user up to upper and lower case.
pub id_cmp-AgreesOn :
    (a b : IksId) (parts : ℕ)
    → (id_cmp (some a) (some b) parts ≡ 0) ↔ (
        AgreesOn parts iks_id_resource (a.resource ≡ b.resource)
        × AgreesOn parts iks_id_user (lower_text a.user ≡ lower_text b.user)
        × AgreesOn parts iks_id_server (some a.server ≡ some b.server))
unfolding id_cmp
id_cmp-AgreesOn a b parts =
    let r =
      part_diff-AgreesOn parts iks_id_resource (differs eq_bytes a.resource b.resource) _
        (ground arith) (differs-eq_bytes a.resource b.resource) in
    let u =
      part_diff-AgreesOn parts iks_id_user (differs same_letters a.user b.user) _ (ground arith)
        (differs-same_letters a.user b.user) in
    let s =
      part_diff-AgreesOn parts iks_id_server (differs eq_bytes (some a.server) (some b.server)) _
        (ground arith) (differs-eq_bytes (some a.server) (some b.server)) in
    (
      λ e. (r.0 (omega arith), u.0 (omega arith), s.0 (omega arith)),
      λ (x, y, z). let i = r.1 x in let j = u.1 y in let k = s.1 z in omega arith,
    )
