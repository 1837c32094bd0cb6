-- ===== src/Sax/Safe/Loop.antt =====
-- The whole of `sax_core`: no fault, an end, the invariant, and the counters.
use mathlib.Core.Path.{subst}
use iksemel.Base.{
  ℕ, zero, suc, ◌+◌, ◌*◌, ◌%◌, ◌^◌, ◌≤◌, ◌<◌, ◌≡◌, refl, sym, ◌∙◌, ◌≢◌, ◌==◌, if◌then◌else◌, Option,
  none, some, [], ◌∷◌, ◌++◌, arith, Bytes, length, Bool-cases, inl, inr, take,
}
use iksemel.Sax.Types.{
  Context, c_cdata, c_sect_cdata_c, c_whitespace, c_attribute, Env, Parser, Locals, iks_ok,
}
use iksemel.Sax.Token.{push_pending, flush_cdata}
use iksemel.Sax.Core.{examine, count_byte, finish, flush_last, sax_loop, sax_core}
use iksemel.Sax.Valid.{Sound, IsValid, PendingAt, InvAt, Resumes, InvAt-longer, rank}
use iksemel.Sax.Safe.Ensures.{Ensures, Ensures-seq, Ensures-mono, Fails}
use iksemel.Sax.Safe.Stack.{push_pending_lem, flush_cdata_lem, Pushed, pending_bytes}
use iksemel.Sax.Safe.Rounds.{examine-RoundOk}
use iksemel.Sax.Safe.Post.{RoundOk, held_byte, RankOk}

-- how often a byte occurs
abbrev pub count : ℕ → Bytes → ℕ
count b [] = 0
count b (c ∷ cs) = (if c == b then 1 else 0) + count b cs

-- The counters stand `k` bytes of `buf` further, and no byte more.
pub record CountsTo {U : Type 0} (p : Parser U) (buf : Bytes) (q : Parser U) (k : ℕ) : Type 0 where
  pub within : k ≤ length buf
  pub bytes : q.nr_bytes ≡ (p.nr_bytes + k) % 2 ^ 64
  pub lines : q.nr_lines ≡ (p.nr_lines + count b'\n' (take k buf)) % 2 ^ 64

module _ {U : Type 0} where
  -- an error of its own, with the counters at the byte where the parser gave up
  abbrev pub StopsIn : Parser U → Bytes → ℕ → Parser U → Type 0
  StopsIn p buf e q = (e ≢ iks_ok) × ((k : ℕ) × CountsTo p buf q k)

  -- the whole buffer is read, and the invariant holds
  abbrev pub Reads : Parser U → Bytes → Parser U → Type 0
  Reads p buf q = IsValid q × CountsTo p buf q (length buf)

module _ {U : Type 0} where
  counts_none :
      (p q : Parser U) (buf : Bytes)
      → p.nr_bytes < 2 ^ 64
      → p.nr_lines < 2 ^ 64
      → q.nr_bytes ≡ p.nr_bytes
      → q.nr_lines ≡ p.nr_lines
      → CountsTo p buf q 0
  counts_none p q buf b l e f = record {
    within = omega arith;
    bytes = omega arith;
    lines = omega arith;
  }

  counts_byte :
      (p r q : Parser U) (c : ℕ) (rest : Bytes) (k : ℕ)
      → r.nr_bytes ≡ p.nr_bytes
      → r.nr_lines ≡ p.nr_lines
      → CountsTo (count_byte c r) rest q k
      → CountsTo p (c ∷ rest) q (suc k)
  unfolding count_byte
  counts_byte p r q c rest k e f h = record {
    within = omega (arith, h.within);
    bytes = omega (arith, h.bytes);
    lines = ground (arith, h.lines);
  }

  count_byte-range :
      (p : Parser U) (c : ℕ)
      → p.nr_lines < 2 ^ 64
      → ((count_byte c p).nr_bytes < 2 ^ 64) × ((count_byte c p).nr_lines < 2 ^ 64)
  unfolding count_byte
  count_byte-range p c h = (omega arith, ground arith)

InvAt-user :
    {U : Type 0} (p : Parser U) (u : U) (held : Option ℕ) (ctx : Context)
    → InvAt held ctx p
    → InvAt held ctx (record p { user_data = u })
InvAt-user p u held c_cdata h = h
InvAt-user p u held c_whitespace h = Resumes-user p.oldcontext h
  where
    Resumes-user : (ctx : Context) → Resumes ctx p → Resumes ctx (record p { user_data = u })
    Resumes-user c_attribute h = h
    Resumes-user _ h = h
InvAt-user p u held _ h = h

IsValid-user :
    {U : Type 0} (p : Parser U) (u : U) → IsValid p → IsValid (record p { user_data = u })
IsValid-user p u valid = record {
  sound = record {
    room = valid.sound.room;
    size = valid.sound.size;
    at = InvAt-user p u none p.context valid.sound.at;
  };
  bytes = valid.bytes;
  lines = valid.lines;
}

-- `held` is the byte in front if it is looked at again, and none if it is fresh.
abbrev Held : Option ℕ → Bytes → Type 0
Held none rest = Unit
Held (some d) [] = ⊥
Held (some d) (c ∷ rest) = c ≡ d

Held-same :
    (held : Option ℕ) (c : ℕ) (rest : Bytes)
    → Held held (c ∷ rest)
    → (d : ℕ) → held ≡ some d
    → c ≡ d
Held-same none c rest h d e = cc
Held-same (some d') c rest h d e = let same : d' ≡ d = cc in h ∙ same

PendingAt-suc : (pos : ℕ) (o : Option ℕ) → PendingAt pos o → PendingAt (pos + 1) o
PendingAt-suc pos none h = tt
PendingAt-suc pos (some i) h = omega arith

rank-le : (ctx : Context) → rank ctx ≤ 3
rank-le c_cdata = omega arith
rank-le _ = omega arith

InvAt-counted :
    {U : Type 0} (p : Parser U) (b n : ℕ) (ctx : Context)
    → InvAt none ctx p
    → InvAt none ctx (record p { nr_bytes = b; nr_lines = n })
InvAt-counted p b n c_cdata h = h
InvAt-counted p b n c_whitespace h = Resumes-counted p.oldcontext h
  where
    Resumes-counted :
        (ctx : Context) → Resumes ctx p → Resumes ctx (record p { nr_bytes = b; nr_lines = n })
    Resumes-counted c_attribute h = h
    Resumes-counted _ h = h
InvAt-counted p b n _ h = h

Sound-counted : {U : Type 0} (p : Parser U) (c : ℕ) → Sound none p → Sound none (count_byte c p)
unfolding count_byte
Sound-counted p c s = record {
  room = s.room;
  size = s.size;
  at = InvAt-counted p _ _ p.context s.at;
}

counted_context :
    {U : Type 0} (p : Parser U) (c : ℕ) → rank (count_byte c p).context ≡ rank p.context
unfolding count_byte
counted_context p c = refl

counts_from :
    {U : Type 0} (p r q : Parser U) (rest : Bytes) (k : ℕ)
    → r.nr_bytes ≡ p.nr_bytes
    → r.nr_lines ≡ p.nr_lines
    → CountsTo r rest q k
    → CountsTo p rest q k
counts_from p r q rest k e f h = record {
  within = h.within;
  bytes = omega (arith, h.bytes);
  lines = omega (arith, h.lines);
}

module _ {U : Type 0} (env : Env U) (buf : Bytes) where
  -- what an error in front of any byte means
  stops :
      (p : Parser U) (rest : Bytes)
      → p.nr_bytes < 2 ^ 64
      → p.nr_lines < 2 ^ 64
      → (e : ℕ) (q : Parser U) → Fails p e q
      → StopsIn p rest e q
  stops p rest bytes lines e q (bad, b, n) = (bad, (0, counts_none p q rest bytes lines b n))

  flushed :
      (pos : ℕ) (l : Locals) (p : Parser U)
      → IsValid p
      → Ensures
          (Fails p)
          (λ q. IsValid q × (q.nr_bytes ≡ p.nr_bytes) × (q.nr_lines ≡ p.nr_lines))
          (flush_cdata env buf pos l p)
  flushed pos l p valid =
      Ensures-mono (Fails p) (Fails p) _ _ (flush_cdata env buf pos l p)
        (flush_cdata_lem env buf pos l p) (λ e q h. h)
        λ q e.
          subst
            (λ (x : Parser U). IsValid x × (x.nr_bytes ≡ p.nr_bytes) × (x.nr_lines ≡ p.nr_lines))
            (sym e) (IsValid-user p q.user_data valid, refl, refl)

  flush_last-IsValid :
      (pos : ℕ) (l : Locals) (p : Parser U) (ctx : Context)
      → IsValid p
      → Ensures
          (Fails p)
          (λ q. IsValid q × (q.nr_bytes ≡ p.nr_bytes) × (q.nr_lines ≡ p.nr_lines))
          (flush_last env buf pos l p ctx)
  unfolding flush_last
  flush_last-IsValid pos l p c_cdata valid = flushed pos l p valid
  flush_last-IsValid pos l p c_sect_cdata_c valid = flushed pos l p valid
  flush_last-IsValid pos l p _ valid = (valid, refl, refl)

  finish-Reads :
      (pos : ℕ) (l : Locals) (p : Parser U)
      → IsValid p
      → PendingAt pos l.stack_old
      → Ensures (StopsIn p []) (Reads p []) (finish env buf pos l p)
  unfolding finish
  finish-Reads pos l p valid pending =
      Ensures-seq (Fails p) (StopsIn p []) (Pushed p t) (Reads p [])
        (push_pending env buf pos l.stack_old p) _
        (push_pending_lem env buf pos l.stack_old p valid.sound.room pending)
        (stops p [] valid.bytes valid.lines)
        λ q (e, room).
          subst
            (λ (x : Parser U).
              Ensures (StopsIn p []) (Reads p []) (flush_last env buf pos l x x.context))
            (sym e)
            (pushed q.stack_max (subst (λ (x : Parser U). length x.stack ≤ q.stack_max) e room))
    where
      t : Bytes
      t = pending_bytes buf pos l.stack_old

      pushed :
          (m : ℕ)
          → length (p.stack ++ t) ≤ m
          → Ensures (StopsIn p []) (Reads p []) (
              flush_last env buf pos l (record p { stack = p.stack ++ t; stack_max = m }) p.context)
      pushed m room =
          let q = record p { stack = p.stack ++ t; stack_max = m } in
          let valid' : IsValid q = record {
            sound = record {
              room = room;
              size = valid.sound.size;
              at = InvAt-longer p t m none p.context valid.sound.at;
            };
            bytes = valid.bytes;
            lines = valid.lines;
          } in
          Ensures-mono (Fails p) (StopsIn p []) _ (Reads p [])
            (flush_last env buf pos l q p.context) (flush_last-IsValid pos l q p.context valid')
            (stops p [] valid.bytes valid.lines)
            λ r (v, b, n). (v, counts_none p r [] valid.bytes valid.lines b n)

  sax_loop-Reads :
      (fuel : ℕ) (rest : Bytes) (pos : ℕ) (l : Locals) (p : Parser U) (held : Option ℕ)
      → Sound held p
      → p.nr_bytes < 2 ^ 64
      → p.nr_lines < 2 ^ 64
      → PendingAt pos l.stack_old
      → Held held rest
      → 4 * length rest + rank p.context < fuel + 4
      → Ensures (StopsIn p rest) (Reads p rest) (sax_loop env buf fuel rest pos l p)
  unfolding sax_loop
  sax_loop-Reads fuel [] pos l p none sound bytes lines pending same enough =
      finish-Reads pos l p (record { sound = sound; bytes = bytes; lines = lines }) pending
  sax_loop-Reads fuel [] pos l p (some d) sound bytes lines pending same enough = absurd same
  sax_loop-Reads zero (c ∷ rest) pos l p held sound bytes lines pending same enough =
      absurd (omega arith)
  sax_loop-Reads (suc fuel) (c ∷ rest) pos l p held sound bytes lines pending same enough =
      Ensures-seq (Fails p) (StopsIn p (c ∷ rest)) (RoundOk c pos p (rank p.context))
        (Reads p (c ∷ rest)) (examine env buf c pos l p) _
        (examine-RoundOk env buf c pos l p sound.room sound.size pending held
          (Held-same held c rest same) sound.at)
        (stops p (c ∷ rest) bytes lines)
        λ r (s, at, b, n, lower). elim (Bool-cases r.re) [
          | inl e ↦
              let lower' : rank r.prs.context < rank p.context =
                subst (λ re. RankOk re (rank r.prs.context) (rank p.context)) e lower in
              rw e (
                Ensures-mono (StopsIn r.prs (c ∷ rest)) (StopsIn p (c ∷ rest))
                  (Reads r.prs (c ∷ rest)) (Reads p (c ∷ rest))
                  (sax_loop env buf fuel (c ∷ rest) pos r.locals r.prs)
                  (sax_loop-Reads fuel (c ∷ rest) pos r.locals r.prs (some c)
                    (subst (λ re. Sound (held_byte re c) r.prs) e s) (omega arith) (omega arith) at
                    refl (omega arith))
                  (λ f q (bad, (k, h)). (bad, (k, counts_from p r.prs q (c ∷ rest) k b n h)))
                  λ q (v, h). (v, counts_from p r.prs q (c ∷ rest) (length (c ∷ rest)) b n h))
          | inr e ↦
              let (b', n') = count_byte-range r.prs c (omega arith) in
              rw e (
                Ensures-mono (StopsIn (count_byte c r.prs) rest) (StopsIn p (c ∷ rest))
                  (Reads (count_byte c r.prs) rest) (Reads p (c ∷ rest))
                  (sax_loop env buf fuel rest (pos + 1) r.locals (count_byte c r.prs))
                  (sax_loop-Reads fuel rest (pos + 1) r.locals (count_byte c r.prs) none
                    (Sound-counted r.prs c (subst (λ re. Sound (held_byte re c) r.prs) e s)) b' n'
                    (PendingAt-suc pos r.locals.stack_old at) tt
                    (omega (arith, rank-le r.prs.context, counted_context r.prs c)))
                  (λ f q (bad, (k, h)). (bad, (suc k, counts_byte p r.prs q c rest k b n h)))
                  λ q (v, h). (v, counts_byte p r.prs q c rest (length rest) b n h))
        ]

-- On a valid parser `sax_core` reads or writes nothing out of bounds, comes to an end, and either
-- reads the whole buffer, keeps the invariant and counts the bytes and the lines of the buffer,
-- or returns an error that is not IKS_OK with the counters at the byte where it gave up.
pub sax_core-Reads :
    {U : Type 0} (env : Env U) (p : Parser U) (buf : Bytes)
    → IsValid p
    → Ensures (StopsIn p buf) (Reads p buf) (sax_core env p buf)
unfolding sax_core
sax_core-Reads env p buf valid =
    sax_loop-Reads env buf (4 * length buf) buf 0 (record { old = 0; stack_old = none }) p none
      valid.sound valid.bytes valid.lines tt tt (omega (arith, rank-le p.context))
