-- ===== src/Iks/Sim.antt =====
-- Commands of src/iks.c that only read, on two heaps with the same nodes.
use iksemel.Base.{ℕ, Bool, true, false, if◌then◌else◌, Option, none, some, ◌≡◌, refl}
use iksemel.Iks.Heap.{
  Ptr, Node, Body, tag, cdata, attrib, Heap, Run, ok, fault, out_of_fuel, Cmd, pure, crash, starve,
  and_then, ◌>>=◌, if_null, non_null, load, load_tag, as_tag, as_cdata, as_attrib,
}

-- the same heap, of which so many requests were made
abbrev pub at_request : ℕ → Heap → Heap
at_request k h = record h { fresh = k }

-- The first run leaves the heap `h`, and the second one ends in the same way with `h'`, where
-- it returns what `f` makes of the first one's value.
pub data Sim {A B : Type 0} (f : A → B) (h h' : Heap) : Run A → Run B → Type 0 where
  both_ok : (a : A) → Sim f h h' (ok a h) (ok (f a) h')
  both_fault : Sim f h h' fault fault
  both_starve : Sim f h h' out_of_fuel out_of_fuel

-- `Sim` by the end of the first run
abbrev pub EndsAs : {A B : Type 0} → (A → B) → Heap → Heap → Run A → Run B → Type 0
EndsAs f h h' (ok a left) r = (left ≡ h) × (r ≡ ok (f a) h')
EndsAs f h h' fault r = r ≡ fault
EndsAs f h h' out_of_fuel r = r ≡ out_of_fuel

module _ {A B : Type 0} {f : A → B} {h h' : Heap} where
  pub Sim-EndsAs : {r : Run A} → {r' : Run B} → Sim f h h' r r' → EndsAs f h h' r r'
  Sim-EndsAs (both_ok a) = (refl, refl)
  Sim-EndsAs both_fault = refl
  Sim-EndsAs both_starve = refl

-- `Sim` of two commands on these heaps
pub record Follows {A B : Type 0} (f : A → B) (h h' : Heap) (c : Cmd A) (d : Cmd B) : Type 0 where
  pub runs : Sim f h h' (c h) (d h')

module _ {A B : Type 0} {f : A → B} {h h' : Heap} where
  pub Follows-pure : (a : A) → Follows f h h' (pure a) (pure (f a))
  Follows-pure a = record { runs = both_ok a }

  pub Follows-crash : Follows f h h' crash crash
  Follows-crash = record { runs = both_fault }

  pub Follows-starve : Follows f h h' starve starve
  Follows-starve = record { runs = both_starve }

  then_runs :
      {C D : Type 0}
      → {g : C → D} → (k : A → Cmd C) → (l : B → Cmd D) → {r : Run A} → {r' : Run B}
      → Sim f h h' r r'
      → ((a : A) → Follows g h h' (k a) (l (f a)))
      → Sim g h h' (and_then r k) (and_then r' l)
  then_runs k l (both_ok a) s = (s a).runs
  then_runs k l both_fault s = both_fault
  then_runs k l both_starve s = both_starve

  pub Follows-and_then :
      {C D : Type 0}
      → {g : C → D} → {c : Cmd A} → {d : Cmd B} → (k : A → Cmd C) → (l : B → Cmd D)
      → Follows f h h' c d
      → ((a : A) → Follows g h h' (k a) (l (f a)))
      → Follows g h h' (c >>= k) (d >>= l)
  Follows-and_then k l s t = record { runs = then_runs k l s.runs t }

  pub Follows-if :
      (b : Bool)
      → {c d : Cmd A} → {c' d' : Cmd B} → Follows f h h' c c'
      → Follows f h h' d d'
      → Follows f h h' (if b then c else d) (if b then c' else d')
  Follows-if true s t = s
  Follows-if false s t = t

  pub Follows-if_null :
      {C : Type 0}
      → (o : Option C) → {c : Cmd A} → {d : C → Cmd A} → {c' : Cmd B} → {d' : C → Cmd B}
      → Follows f h h' c c'
      → ((a : C) → Follows f h h' (d a) (d' a))
      → Follows f h h' (if_null o c d) (if_null o c' d')
  Follows-if_null none s t = s
  Follows-if_null (some a) s t = t a

module _ (h : Heap) (k : ℕ) where
  abbrev pub Reads : {A : Type 0} → Cmd A → Type 0
  Reads c = Follows (λ a. a) h (at_request k h) c c

  node-Sim :
      (o : Option Node)
      → Sim
          (λ (n : Node). n)
          h
          (at_request k h)
          (elim o [ none ↦ fault | some n ↦ ok n h ])
          (elim o [ none ↦ fault | some n ↦ ok n (at_request k h) ])
  node-Sim none = both_fault
  node-Sim (some n) = both_ok n

  pub load-Reads : (p : Ptr) → Reads (load p)
  unfolding load
  load-Reads none = record { runs = both_fault }
  load-Reads (some a) = record { runs = node-Sim (h.node a) }

  pub as_tag-Reads : (b : Body) → Reads (as_tag b)
  as_tag-Reads (tag t) = Follows-pure t
  as_tag-Reads (cdata c len) = Follows-crash
  as_tag-Reads (attrib name value) = Follows-crash

  pub as_cdata-Reads : (b : Body) → Reads (as_cdata b)
  as_cdata-Reads (tag t) = Follows-crash
  as_cdata-Reads (cdata c len) = Follows-pure _
  as_cdata-Reads (attrib name value) = Follows-crash

  pub as_attrib-Reads : (b : Body) → Reads (as_attrib b)
  as_attrib-Reads (tag t) = Follows-crash
  as_attrib-Reads (cdata c len) = Follows-crash
  as_attrib-Reads (attrib name value) = Follows-pure _

  pub non_null-Reads : {A : Type 0} → (o : Option A) → Reads (non_null o)
  non_null-Reads none = Follows-crash
  non_null-Reads (some a) = Follows-pure a

  pub load_tag-Reads : (p : Ptr) → Reads (load_tag p)
  unfolding load_tag
  load_tag-Reads p = Follows-and_then _ _ (load-Reads p) λ n. as_tag-Reads n.body

pub if_ok :
    {A : Type 0} (b : Bool) (c d : Cmd A) (v w : A) (h : Heap)
    → c h ≡ ok v h
    → d h ≡ ok w h
    → (if b then c else d) h ≡ ok (if b then v else w) h
if_ok true c d v w h e k = e
if_ok false c d v w h e k = k
