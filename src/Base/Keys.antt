-- ===== src/Base/Keys.antt =====
-- Sets of strings as lists, and the keys of a dictionary.
use rackspace_monitoring_pol.Base.{
  String, ◌≡◌, refl, ◌∙◌, Bool, true, false, none, some, List, [], ◌∷◌, arith, str_eq, eq_iff,
  if◌then◌else◌, Bool-cases, inl, inr,
}
use rackspace_monitoring_pol.Base.Dict.{Dict, keys, lookup, string_eq}
use rackspace_monitoring_pol.Base.Dict.Unique.{Unique}

abbrev pub contains : List String → String → Bool
contains [] k = false
contains (x ∷ xs) k = if str_eq x k then true else contains xs k

-- Without a string.
abbrev pub without : String → List String → List String
without k [] = []
without k (x ∷ xs) = let rest = without k xs in if str_eq x k then rest else x ∷ rest

abbrev pub Distinct : List String → Type 0
Distinct [] = Unit
Distinct (x ∷ xs) = (contains xs x ≡ false) × Distinct xs

pub contains-without :
    (k j : String) (xs : List String)
    → contains (without k xs) j ≡ (if str_eq k j then false else contains xs j)
contains-without k j [] = ground arith
contains-without k j (x ∷ xs) =
    ground (arith, eq_iff x k, eq_iff x j, eq_iff k j, contains-without k j xs)

pub without-Distinct : (k : String) (xs : List String) → Distinct xs → Distinct (without k xs)
without-Distinct k [] d = tt
without-Distinct k (x ∷ xs) d = elim (Bool-cases (str_eq x k)) [
  | inl same ↦ rw same (without-Distinct k xs d.1)
  | inr other ↦ rw other (
    ground (arith, contains-without k x xs, eq_iff x k, eq_iff k x, d.0),
    without-Distinct k xs d.1,
  )
]

-- A key is there exactly when it has a value.
pub contains-keys {κ} :
    {V : Type κ} (k : String) (m : Dict String V)
    → contains (keys m) k ≡ (elim (lookup k m) [ none ↦ false | some v ↦ true ])
unfolding lookup
contains-keys k [] = refl
contains-keys k ((j, v) ∷ m) = elim (Bool-cases (str_eq j k)) [
  | inl same ↦ rw same refl
  | inr other ↦ rw other (contains-keys k m)
]

pub keys-Distinct {κ} : {V : Type κ} (m : Dict String V) → Unique m → Distinct (keys m)
keys-Distinct [] u = tt
keys-Distinct ((k, v) ∷ m) u = (contains-keys k m ∙ rw u.0 refl, keys-Distinct m u.1)
