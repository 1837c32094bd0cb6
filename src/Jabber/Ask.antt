-- ===== src/Jabber/Ask.antt =====
-- `iks_id_new` of src/jabber.c with its requests for memory: NULL where there is none for the
-- `iksid`, a read through NULL where there is none for the whole identifier or for the part in front
-- of the resource, and an identifier without its user where there is none for that.
use iksemel.Base.{ℕ, suc, ◌+◌, Option, none, some, Bytes, drop}
use iksemel.Iks.Heap.{Run, Heap, ok, fault, Cmd, pure, crash, and_then, ◌>>=◌, if_null, request}
use iksemel.Jabber.Id.{IksId, strchr, dup, skip_scheme}

-- the copy of a part, or NULL
unfoldable pub copy_of : Bytes → Cmd (Option Bytes)
unfolding request
copy_of part = do r ← request; if_null r (pure none) λ _. pure (some part)

-- `/* split resource */` where `strchr` has found a place, or has not
abbrev pub ask_resource : Bytes → Option ℕ → Cmd (Bytes × Option Bytes)
ask_resource src none = pure (src, none)
ask_resource src (some i) = do
  partial ← copy_of (dup src i)
  if_null partial crash λ p. pure (p, some (drop (i + 1) src))

-- `/* split user */`
abbrev pub ask_user : Bytes → Option ℕ → Cmd (Option Bytes × Bytes)
ask_user src none = pure (none, src)
ask_user src (some i) = do user ← copy_of (dup src i); pure (user, drop (i + 1) src)

unfoldable pub iks_id_new : Option Bytes → Cmd (Option IksId)
unfolding request copy_of
iks_id_new none = pure none
iks_id_new (some jid) = do
  id ← request
  if_null id (pure none) λ _. do
    full ← copy_of (skip_scheme jid)
    if_null full crash λ src. do
      r ← ask_resource src (strchr src b'/')
      u ← ask_user r.0 (strchr r.0 b'@')
      pure (some (record { user = u.0; server = u.1; resource = r.1; partial = r.0; full = src }))

-- A run that makes requests and changes nothing else: it crashes, or it ends.
pub data Asks {A : Type 0} (h : Heap) : Run A → Type 0 where
  asked : (a : A) (n : ℕ) → Asks h (ok a (record h { fresh = n }))
  crashes : Asks h fault

abbrev Asking : {A : Type 0} → Cmd A → Type 0
Asking m = (h : Heap) → Asks h (m h)

Asks-later :
    {A : Type 0} (h : Heap) (n : ℕ) (r : Run A) → Asks (record h { fresh = n }) r → Asks h r
Asks-later h n _ (asked a k) = asked a k
Asks-later h n _ crashes = crashes

Asks-and_then :
    {A B : Type 0} (h : Heap) (r : Run A) (next : A → Cmd B)
    → Asks h r
    → ((a : A) → Asking (next a))
    → Asks h (and_then r next)
Asks-and_then h _ next (asked a n) k =
    Asks-later h n (next a (record h { fresh = n })) (k a (record h { fresh = n }))
Asks-and_then h _ next crashes k = crashes

Asking-request : Asking request
unfolding request
Asking-request h = asked _ (suc h.fresh)

Asking-if_null :
    {A B : Type 0} (a : Option A) (stop : Cmd B) (k : A → Cmd B)
    → Asking stop
    → ((x : A) → Asking (k x))
    → Asking (if_null a stop k)
Asking-if_null none stop k s t = s
Asking-if_null (some x) stop k s t = t x

Asking-copy_of : (part : Bytes) → Asking (copy_of part)
unfolding copy_of
Asking-copy_of part h =
    Asks-and_then h (request h) _ (Asking-request h)
      λ r. Asking-if_null r (pure none) _ (λ q. asked none q.fresh) λ x q. asked (some part) q.fresh

Asking-ask_resource : (src : Bytes) (at : Option ℕ) → Asking (ask_resource src at)
Asking-ask_resource src none h = asked _ h.fresh
Asking-ask_resource src (some i) h =
    Asks-and_then h (copy_of (dup src i) h) _ (Asking-copy_of (dup src i) h)
      λ p. Asking-if_null p crash _ (λ q. crashes) λ x q. asked _ q.fresh

Asking-ask_user : (src : Bytes) (at : Option ℕ) → Asking (ask_user src at)
Asking-ask_user src none h = asked _ h.fresh
Asking-ask_user src (some i) h =
    Asks-and_then h (copy_of (dup src i) h) _ (Asking-copy_of (dup src i) h) λ u q. asked _ q.fresh

pub iks_id_new-Asks : (jid : Option Bytes) (h : Heap) → Asks h (iks_id_new jid h)
unfolding iks_id_new
iks_id_new-Asks none h = asked none h.fresh
iks_id_new-Asks (some jid) h = Asks-and_then h (request h) _ (Asking-request h) λ id.
    Asking-if_null id (pure none) _ (λ q. asked none q.fresh)
      λ _ h1.
        Asks-and_then h1 (copy_of (skip_scheme jid) h1) _ (Asking-copy_of (skip_scheme jid) h1)
          λ full.
            Asking-if_null full crash _ (λ q. crashes)
              λ src h2.
                Asks-and_then h2 (ask_resource src (strchr src b'/') h2) _
                  (Asking-ask_resource src (strchr src b'/') h2)
                  λ r h3.
                    Asks-and_then h3 (ask_user r.0 (strchr r.0 b'@') h3) _
                      (Asking-ask_user r.0 (strchr r.0 b'@') h3)
                      λ u q.
                        asked
                          (some (record {
                            user = u.0;
                            server = u.1;
                            resource = r.1;
                            partial = r.0;
                            full = src;
                          }))
                          q.fresh
