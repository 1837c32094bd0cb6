-- ===== src/Tests/Jabber.antt =====
-- Identifiers, as in test/tst-jid.c, and one that has nothing in front of its resource.
use iksemel.Base.{ℕ, ◌≡◌, ◌↔◌, Bytes, refl, arith, false, none, some, ◌++◌, codes, eq_bytes}
use iksemel.Jabber.Id.Compare.{AgreesOn, lower_text, id_cmp-AgreesOn}
use iksemel.Jabber.Id.{
  IksId, strchr, skip_scheme, split_resource, split_user, id_new, differs, id_cmp,
}
use iksemel.Jabber.Granted.{iks_id_new-print_id}
use iksemel.Jabber.Ask.{iks_id_new}
use iksemel.Iks.Heap.{ok}
use iksemel.Tests.Dom.{empty_heap}
use iksemel.Jabber.Id.RoundTrip.{Part, print_partial, print_id}

running : Unit {0}
unfolding strchr skip_scheme split_resource split_user id_new differs id_cmp eq_bytes
running = tt

compared :
    id_cmp
      (id_new (some (codes "dean@unseen.edu/pda")))
      (id_new (some (codes "librarian@unseen.edu/jabberx")))
      7
    ≡ 5
unfolding running
compared = refl

-- An empty part in front of the resource has length 0, and is copied as the whole string.
empty_partial :
    id_new (some (codes "/pda"))
    ≡ some (record {
      user = none;
      server = codes "/pda";
      resource = some (codes "pda");
      partial = codes "/pda";
      full = codes "/pda";
    })
unfolding running
empty_partial = refl

bob-Part : Part (codes "bob")
bob-Part = (
  omega arith,
  (omega arith, (omega arith, (omega arith, tt))),
  (omega arith, (omega arith, (omega arith, tt))),
)

host-Part : Part (codes "a.b")
host-Part = (
  omega arith,
  (omega arith, (omega arith, (omega arith, tt))),
  (omega arith, (omega arith, (omega arith, tt))),
)

iks_id_new-print_id_example :
    (n : ℕ) × (iks_id_new
        (some (print_id (some (codes "bob")) (codes "a.b") (some (codes "x/y"))))
        empty_heap
      ≡ ok
          (some (record {
            user = some (codes "bob");
            server = codes "a.b";
            resource = some (codes "x/y");
            partial = print_partial (some (codes "bob")) (codes "a.b");
            full = print_id (some (codes "bob")) (codes "a.b") (some (codes "x/y"));
          }))
          (record empty_heap { fresh = n }))
unfolding eq_bytes
iks_id_new-print_id_example =
    iks_id_new-print_id empty_heap false (some (codes "bob")) (codes "a.b") (some (codes "x/y"))
      (λ n. refl) bob-Part host-Part refl

abbrev bob_at : Bytes → Bytes → IksId
bob_at user resource = record {
  user = some user;
  server = codes "a.b";
  resource = some resource;
  partial = user ++ codes "@a.b";
  full = user ++ codes "@a.b";
}

id_cmp-AgreesOn_example :
    (id_cmp (some (bob_at (codes "bob") (codes "x"))) (some (bob_at (codes "BOB") (codes "y"))) 3
      ≡ 0)
    ↔ (AgreesOn 3 4 (some (codes "x") ≡ some (codes "y"))
        × AgreesOn 3 1 (lower_text (some (codes "bob")) ≡ lower_text (some (codes "BOB")))
        × AgreesOn 3 2 (some (codes "a.b") ≡ some (codes "a.b")))
id_cmp-AgreesOn_example =
    id_cmp-AgreesOn (bob_at (codes "bob") (codes "x")) (bob_at (codes "BOB") (codes "y")) 3
