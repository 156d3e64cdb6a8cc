-- ===== src/Events/Registered.antt =====
-- Who is registered after RegisterEventConsumer and DeregisterEventConsumer (utils/events.go).
use rackspace_monitoring_pol.Base.{
  ◌≡◌, refl, ap, sym, ◌∙◌, true, false, not, ◌&&◌, ◌||◌, List, [], ◌∷◌, ◌++◌, arith, Bool-cases,
  inl, inr,
}
use rackspace_monitoring_pol.Base.Dict.{Key, ◌==◌}
use rackspace_monitoring_pol.Events.{has_consumer, register_consumer, trim, deregister_consumer}

module _ {ℓ} {C : Type ℓ} ⦃key : Key C⦄ where
  -- No consumer is registered twice.
  abbrev pub Once : List C → Type 0
  Once [] = Unit
  Once (c ∷ cs) = (has_consumer c cs ≡ false) × Once cs

  has_consumer-append :
      (c : C) (xs ys : List C)
      → has_consumer c (xs ++ ys) ≡ (has_consumer c xs || has_consumer c ys)
  unfolding has_consumer
  has_consumer-append c [] ys = refl
  has_consumer-append c (x ∷ xs) ys = ground (arith, has_consumer-append c xs ys)

  has_consumer-trim :
      (c d : C) (cs : List C) → has_consumer d (trim c cs) ≡ (not (c == d) && has_consumer d cs)
  unfolding has_consumer trim
  has_consumer-trim c d [] = ground arith
  has_consumer-trim c d (x ∷ xs) =
      ground
        (arith, key.equal_iff x c, key.equal_iff x d, key.equal_iff c d, has_consumer-trim c d xs)

  Once-append : (c : C) (cs : List C) → has_consumer c cs ≡ false → Once cs → Once (cs ++ c ∷ [])
  unfolding has_consumer
  Once-append c [] h o = (refl, tt)
  Once-append c (x ∷ xs) h o =
      let differ = key.equal_iff x c in
      (
        ground (
          arith,
          has_consumer-append x xs (c ∷ []),
          key.equal_iff x c,
          key.equal_iff c x,
          o.0,
          h,
        ),
        Once-append c xs (ground (arith, h)) o.1,
      )

  Once-trim : (c : C) (cs : List C) → Once cs → Once (trim c cs)
  unfolding trim
  Once-trim c [] o = tt
  Once-trim c (x ∷ xs) o = elim (Bool-cases (x == c)) [
    | inl same ↦ rw same (Once-trim c xs o.1)
    | inr other ↦ rw other (has_consumer-trim c x xs ∙ rw o.0 (ground arith), Once-trim c xs o.1)
  ]

  same_consumer : (c d : C) (cs : List C) → (c == d) ≡ true → has_consumer d cs ≡ has_consumer c cs
  same_consumer c d cs e = ap (λ x. has_consumer x cs) (sym ((key.equal_iff c d).0 e))

  present :
      (c d : C) (cs : List C)
      → has_consumer c cs ≡ true
      → has_consumer d cs ≡ (c == d || has_consumer d cs)
  present c d cs h = ground (arith, same_consumer c d cs, h)

  missing :
      (c d : C) (cs : List C)
      → has_consumer c cs ≡ false
      → has_consumer d cs ≡ (not (c == d) && has_consumer d cs)
  missing c d cs h = ground (arith, same_consumer c d cs, h)

  at_end :
      (c d : C) (cs : List C)
      → (has_consumer d cs || has_consumer d (c ∷ [])) ≡ (c == d || has_consumer d cs)
  unfolding has_consumer
  at_end c d cs = ground arith

  -- A registration and a deregistration keep every consumer registered at most once. After a
  -- registration, exactly that consumer and those from before are registered, the old ones before
  -- the new one; after a deregistration exactly the others from before.
  pub registered_after :
      (c : C) (cs : List C)
      → Once cs
      → Once (register_consumer c cs)
        × Once (deregister_consumer c cs)
        × ((d : C)
            → (has_consumer d (register_consumer c cs) ≡ (c == d || has_consumer d cs))
              × (has_consumer d (deregister_consumer c cs) ≡ (not (c == d) && has_consumer d cs)))
  unfolding register_consumer deregister_consumer
  registered_after c cs o = elim (Bool-cases (has_consumer c cs)) [
    | inl e ↦ rw e (o, Once-trim c cs o, λ d. (present c d cs e, has_consumer-trim c d cs))
    | inr e ↦ rw e (
      Once-append c cs e o,
      o,
      λ d. (has_consumer-append d cs (c ∷ []) ∙ at_end c d cs, missing c d cs e),
    )
  ]
