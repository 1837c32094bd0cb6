-- ===== src/Stream/Leads.antt =====
-- What actions on a stream lead from one property of the stream to another, and the rule by which
-- they are put together.
use iksemel.Iks.Heap.{Heap, Run, fault, out_of_fuel, ok, Cmd, and_then}
use iksemel.Stream.Types.{StreamData, Conn, Act, ◌>>=◌}

-- what a run leaves, if it ends well
abbrev pub Ends : {A : Type 0} → (A → Type 0) → Run A → Type 0
Ends P (ok a h) = P a
Ends P fault = Unit
Ends P out_of_fuel = Unit

Ends-and_then :
    {A B : Type 0} (P : A → Type 0) (Q : B → Type 0) (r : Run A) (next : A → Cmd B)
    → Ends P r
    → ((a : A) (h : Heap) → P a → Ends Q (next a h))
    → Ends Q (and_then r next)
Ends-and_then P Q (ok a h) next p k = k a h p
Ends-and_then P Q fault next p k = tt
Ends-and_then P Q out_of_fuel next p k = tt

module _ {W : Type 0} where
  -- An action that starts where the first property holds ends where the second holds.
  abbrev pub Leads :
      {A : Type 0} → (StreamData W → Type 0) → (StreamData W → Type 0) → Act W A → Type 0
  Leads P Q act = (c : Conn W) (h : Heap) → P c.stream → Ends (λ r. Q r.1.stream) (act c h)

  pub Leads-bind :
      {A B : Type 0} (P R Q : StreamData W → Type 0) (first : Act W A) (next : A → Act W B)
      → Leads P R first
      → ((a : A) → Leads R Q (next a))
      → Leads P Q (first >>= next)
  Leads-bind P R Q first next f n c h p =
      Ends-and_then (λ r. R r.1.stream) (λ r. Q r.1.stream) (first c h) _ (f c h p)
        λ r g q. n r.0 r.1 g q
