-- ===== src/Base/Dict/Unique.antt =====
-- Dictionaries whose keys are distinct, as those of a Go map are: what holds of every entry holds
-- of every lookup, and the other way round.
use mathlib.Core.Path.{subst₂}
use mathlib.Core.Option.{some_inj}
use rackspace_monitoring_pol.Base.{
  ◌≡◌, refl, sym, true, false, none, some, [], ◌∷◌, arith, ◌⊎◌, inl, inr, Bool-cases,
}
use rackspace_monitoring_pol.Base.Dict.{
  Dict, Key, ◌==◌, lookup, insert, delete, lookup-insert, lookup-delete, ==_refl,
}

module _ {ℓ κ} {K : Type ℓ} {V : Type κ} ⦃e : Key K⦄ where
  abbrev pub Unique : Dict K V → Type κ
  Unique [] = Unit
  Unique ((k, v) ∷ m) = (lookup k m ≡ none) × Unique m

  pub insert-Unique : (k : K) (v : V) (m : Dict K V) → Unique m → Unique (insert k v m)
  unfolding insert lookup
  insert-Unique k v [] u = (refl, tt)
  insert-Unique k v ((j, w) ∷ m) u = elim (Bool-cases (j == k)) [
    | inl same ↦ rw same (rw ((e.equal_iff j k).0 same) at u.0, u.1)
    | inr other ↦ rw other (
      ground (arith, lookup-insert k j v m, e.equal_iff k j, e.equal_iff j k),
      insert-Unique k v m u.1,
    )
  ]

  pub delete-Unique : (k : K) (m : Dict K V) → Unique m → Unique (delete k m)
  unfolding delete
  delete-Unique k [] u = tt
  delete-Unique k ((j, w) ∷ m) u = elim (Bool-cases (j == k)) [
    | inl same ↦ rw same (delete-Unique k m u.1)
    | inr other ↦ rw other (
      ground (arith, lookup-delete k j m, e.equal_iff k j, e.equal_iff j k),
      delete-Unique k m u.1,
    )
  ]

module _ {ℓ κ μ} {K : Type ℓ} {V : Type κ} ⦃e : Key K⦄ (P : K → V → Type μ) where
  abbrev pub Entries : Dict K V → Type μ
  Entries [] = Unit
  Entries ((k, v) ∷ m) = P k v × Entries m

  pub Entries-lookup : (m : Dict K V) → Entries m → (k : K) (v : V) → lookup k m ≡ some v → P k v
  unfolding lookup
  Entries-lookup [] h k v l = cc
  Entries-lookup ((j, w) ∷ m) h k v l = elim (Bool-cases (j == k)) [
    | inl same ↦ subst₂ P ((e.equal_iff j k).0 same) (some_inj.0 (rw same at l)) h.0
    | inr other ↦ Entries-lookup m h.1 k v (rw other at l)
  ]

  pub lookup-Entries :
      (m : Dict K V) → Unique m → ((k : K) (v : V) → lookup k m ≡ some v → P k v) → Entries m
  unfolding lookup
  lookup-Entries [] u h = tt
  lookup-Entries ((j, w) ∷ m) u h = (
    h j w (rw ==_refl),
    lookup-Entries m u.1 (λ k v l. h k v (later k v l (Bool-cases (j == k)))),
  )
    where
      later :
          (k : K) (v : V)
          → lookup k m ≡ some v
          → ((j == k) ≡ true) ⊎ ((j == k) ≡ false)
          → lookup k ((j, w) ∷ m) ≡ some v
      later k v l (inl same) = absurd (cc (rw (sym ((e.equal_iff j k).0 same)) at l, u.0))
      later k v l (inr other) = rw other l
