-- ===== src/Stream/Best.antt =====
-- Which connection ChooseBest (poller/connection_stream.go) picks, and where metrics go.
use rackspace_monitoring_pol.Base.{
  String, ◌≡◌, ◌≢◌, refl, true, false, ◌&&◌, Option, none, some, List, [], ◌∷◌, ◌++◌, arith, All,
  Bool-cases, inl, inr, ◌⊎◌,
}
use rackspace_monitoring_pol.Base.Int.{ℤ, ltb_ℤ}
use rackspace_monitoring_pol.Base.Dict.{Dict, values}
use rackspace_monitoring_pol.Stream.{
  Connection, Stream, dropped_metric, max_int64, choose_from, choose_best, send_metrics,
}

abbrev IsMember : Connection → List Connection → Type 0
IsMember c [] = ⊥
IsMember c (x ∷ xs) = (x ≡ c) ⊎ IsMember c xs

-- A best connection: it is one of those, it is measured, and no measured one has a lower latency.
abbrev pub IsBest : List Connection → Connection → Type 0
IsBest cs c =
    IsMember c cs
    × (c.has_latency ≡ true)
    × All (λ x. x.has_latency ≡ true → ltb_ℤ x.latency c.latency ≡ false) cs

-- The choice among `cs` against a bound: the previous best stays, or a lower one is found.
abbrev Chosen : List Connection → ℤ → Option Connection → Option Connection → Type 0
Chosen cs bound best o =
    ((o ≡ best) × All (λ x. x.has_latency ≡ true → ltb_ℤ x.latency bound ≡ false) cs)
    ⊎ ((c : Connection) × (o ≡ some c) × (ltb_ℤ c.latency bound ≡ true) × IsBest cs c)

Chosen-better :
    (c : Connection) (cs : List Connection) (bound : ℤ) (best o : Option Connection)
    → (c.has_latency && ltb_ℤ c.latency bound) ≡ true
    → Chosen cs c.latency (some c) o
    → Chosen (c ∷ cs) bound best o
Chosen-better c cs bound best o e (inl h) =
    inr (c, h.0, ground arith, (inl refl, ground arith, (λ l. ground arith, h.1)))
Chosen-better c cs bound best o e (inr (d, found, lower, is_best)) =
    inr (d, found, ground arith, (inr is_best.0, is_best.1, (λ l. ground arith, is_best.2)))

Chosen-same :
    (c : Connection) (cs : List Connection) (bound : ℤ) (best o : Option Connection)
    → (c.has_latency && ltb_ℤ c.latency bound) ≡ false
    → Chosen cs bound best o
    → Chosen (c ∷ cs) bound best o
Chosen-same c cs bound best o e (inl h) = inl (h.0, (λ l. ground arith, h.1))
Chosen-same c cs bound best o e (inr (d, found, lower, is_best)) =
    inr (d, found, lower, (inr is_best.0, is_best.1, (λ l. ground arith, is_best.2)))

choose_from-Chosen :
    (cs : List Connection) (bound : ℤ) (best : Option Connection)
    → Chosen cs bound best (choose_from cs bound best)
unfolding choose_from
choose_from-Chosen [] bound best = inl (refl, tt)
choose_from-Chosen (c ∷ cs) bound best =
    elim (Bool-cases (c.has_latency && ltb_ℤ c.latency bound)) [
      | inl e ↦ rw e (Chosen-better c cs bound best _ e (choose_from-Chosen cs c.latency (some c)))
      | inr e ↦ rw e (Chosen-same c cs bound best _ e (choose_from-Chosen cs bound best))
    ]

-- ChooseBest gives a connection of those there are, which has a latency and none with a latency has a
-- lower one; or it gives none, and then every latency there is, if any, is the largest int64.
pub choose_best-IsBest :
    (cs : List Connection)
    → ((choose_best cs ≡ none)
        × All (λ x. x.has_latency ≡ true → ltb_ℤ x.latency max_int64 ≡ false) cs)
      ⊎ ((c : Connection) × (choose_best cs ≡ some c) × IsBest cs c)
unfolding choose_best
choose_best-IsBest cs = elim (choose_from-Chosen cs max_int64 none) [
  | inl h ↦ inl h
  | inr h ↦ inr (h.0, h.1, h.3)
]

-- What becomes of a result set.
abbrev pub Delivery {ℓ} : {R : Type ℓ} → R → Stream R → Stream R → Type ℓ
Delivery crs s s' =
    ((s.conns ≡ []) × (s'.posts ≡ s.posts) × (s'.events ≡ s.events ++ dropped_metric crs ∷ []))
    ⊎ ((s.conns ≢ [])
        × (choose_best (values s.conns) ≡ none)
        × (s'.posts ≡ s.posts)
        × (s'.events ≡ s.events))
    ⊎ ((c : Connection) × (s.conns ≢ [])
        × (choose_best (values s.conns) ≡ some c)
        × (s'.events ≡ s.events)
        × (s'.posts
            ≡ s.posts ++ record { connection = c; results = crs; offset = c.clock_offset } ∷ []))

delivered {ℓ} :
    {R : Type ℓ} (crs : R) (s : Stream R) (c : String × Connection) (cs : Dict String Connection)
    (best : Option Connection)
    → choose_best (values (c ∷ cs)) ≡ best
    → Delivery crs (record s { conns = c ∷ cs }) (send_metrics crs (record s { conns = c ∷ cs }))
unfolding send_metrics
delivered crs s c cs none e =
    inr (inl (λ h. cc, e, rw (send_metrics, e) refl, rw (send_metrics, e) refl))
delivered crs s c cs (some d) e =
    inr (inr (d, λ h. cc, e, rw (send_metrics, e) refl, rw (send_metrics, e) refl))

deliver {ℓ} :
    {R : Type ℓ} (crs : R) (s : Stream R) (conns : Dict String Connection)
    → Delivery crs (record s { conns = conns }) (send_metrics crs (record s { conns = conns }))
unfolding send_metrics
deliver crs s [] = inl (refl, refl, refl)
deliver crs s (c ∷ cs) = delivered crs s c cs (choose_best (values (c ∷ cs))) refl

-- Without connections a result set is dropped with an event and not posted. With connections it is
-- posted once, through the one that ChooseBest gives and with its clock offset, and without an event; or
-- ChooseBest gives none, and then it is gone without an event.
pub send_metrics-Delivery {ℓ} :
    {R : Type ℓ} (crs : R) (s : Stream R) → Delivery crs s (send_metrics crs s)
unfolding send_metrics
send_metrics-Delivery crs s = deliver crs s s.conns
