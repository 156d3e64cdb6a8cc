-- ===== src/Ping/Statistics.antt =====
-- The statistics of the responses of a ping check (check/check_ping.go), in nanoseconds.
use mathlib.Core.Path.{subst}
use native.Mathlib.Nat.{le-div_iff_mul-le, div-le_of_le-mul}
use rackspace_monitoring_pol.Base.{
  ℕ, suc, ◌+◌, ◌*◌, ◌/◌, ◌^◌, ◌<◌, ◌≤◌, ◌≡◌, refl, sym, ap, ◌∙◌, ◌⊎◌, inl, inr, true, false, Option,
  none, some, List, [], ◌∷◌, arith, length, if◌then◌else◌, All, Bool-cases,
}
use rackspace_monitoring_pol.Base.Int.{ℤ, pos, ltb_ℤ, ◌+ℤ◌}
use rackspace_monitoring_pol.Base.Words.{wrap64, wrap64-InRange}
use rackspace_monitoring_pol.Ping.{PingResponse, Tally, count_rtt, tally, no_tally, average_rtt}

-- The durations of the responses that there are.
abbrev pub durations : List (Option PingResponse) → List ℤ
durations [] = []
durations (none ∷ rs) = durations rs
durations (some r ∷ rs) = r.rtt ∷ durations rs

-- They are these numbers.
abbrev pub AreNumbers : List ℤ → List ℕ → Type 0
AreNumbers [] [] = Unit
AreNumbers (z ∷ zs) (n ∷ ns) = (z ≡ pos n) × AreNumbers zs ns
AreNumbers _ _ = ⊥

abbrev pub sum : List ℕ → ℕ
sum [] = 0
sum (n ∷ ns) = n + sum ns

abbrev pub Contains : ℕ → List ℕ → Type 0
Contains m [] = ⊥
Contains m (n ∷ ns) = (n ≡ m) ⊎ Contains m ns

-- What the tally says of the durations counted so far, the latest first.
abbrev pub Extremes : List ℕ → Tally → Type 0
Extremes [] t = t.initial_duration ≡ true
Extremes (n ∷ ns) t =
    (t.initial_duration ≡ false)
    × ((lo : ℕ) × (t.min_rtt ≡ pos lo) × Contains lo (n ∷ ns) × All (λ x. lo ≤ x) (n ∷ ns))
    × ((hi : ℕ) × (t.max_rtt ≡ pos hi) × Contains hi (n ∷ ns) × All (λ x. x ≤ hi) (n ∷ ns))

abbrev pub Counts : List ℕ → Tally → Type 0
Counts ns t = (t.recv ≡ length ns) × (t.total_rtt ≡ pos (sum ns)) × Extremes ns t

All-le_trans : (a b : ℕ) (ns : List ℕ) → a ≤ b → All (λ x. b ≤ x) ns → All (λ x. a ≤ x) ns
All-le_trans a b [] h all = tt
All-le_trans a b (n ∷ ns) h all = (omega arith, All-le_trans a b ns h all.1)

All-ge_trans : (a b : ℕ) (ns : List ℕ) → b ≤ a → All (λ x. x ≤ b) ns → All (λ x. x ≤ a) ns
All-ge_trans a b [] h all = tt
All-ge_trans a b (n ∷ ns) h all = (omega arith, All-ge_trans a b ns h all.1)

total-Counts : (a b : ℕ) → a + b < 2 ^ 63 → wrap64 (pos a +ℤ pos b) ≡ pos (a + b)
unfolding ◌+ℤ◌
total-Counts a b h =
    let e : pos a +ℤ pos b ≡ pos (a + b) = ground arith in
    rw e (wrap64-InRange (pos (a + b)) (omega arith))

abbrev Lowest : List ℕ → ℤ → Type 0
Lowest ns z = (lo : ℕ) × (z ≡ pos lo) × Contains lo ns × All (λ x. lo ≤ x) ns

abbrev Highest : List ℕ → ℤ → Type 0
Highest ns z = (hi : ℕ) × (z ≡ pos hi) × Contains hi ns × All (λ x. x ≤ hi) ns

Lowest-cons :
    (n : ℕ) (ns : List ℕ) (z : ℤ)
    → Lowest ns z
    → Lowest (n ∷ ns) (if ltb_ℤ (pos n) z then pos n else z)
Lowest-cons n ns z (lo, e, member, below) = rw e (elim (Bool-cases (ltb_ℤ (pos n) (pos lo))) [
  | inl lower ↦
      rw lower (n, refl, inl refl, (omega arith, All-le_trans n lo ns (ground arith) below))
  | inr same ↦ rw same (lo, refl, inr member, (ground arith, below))
])

Highest-cons :
    (n : ℕ) (ns : List ℕ) (z : ℤ)
    → Highest ns z
    → Highest (n ∷ ns) (if ltb_ℤ z (pos n) then pos n else z)
Highest-cons n ns z (hi, e, member, above) = rw e (elim (Bool-cases (ltb_ℤ (pos hi) (pos n))) [
  | inl higher ↦
      rw higher (n, refl, inl refl, (omega arith, All-ge_trans n hi ns (ground arith) above))
  | inr same ↦ rw same (hi, refl, inr member, (ground arith, above))
])

Extremes-cons :
    (n : ℕ) (ns : List ℕ) (t : Tally) → Extremes ns t → Extremes (n ∷ ns) (count_rtt (pos n) t)
unfolding count_rtt
Extremes-cons n [] t x =
    (refl, (n, rw x refl, inl refl, (omega arith, tt)), (n, rw x refl, inl refl, (omega arith, tt)))
Extremes-cons n (m ∷ ns) t x = (
  refl,
  rw x.0 (Lowest-cons n (m ∷ ns) t.min_rtt x.1),
  rw x.0 (Highest-cons n (m ∷ ns) t.max_rtt x.2),
)

count_rtt-Counts :
    (n : ℕ) (ns : List ℕ) (t : Tally)
    → sum ns + n < 2 ^ 63
    → Counts ns t
    → Counts (n ∷ ns) (count_rtt (pos n) t)
unfolding count_rtt
count_rtt-Counts n ns t h c = (
  omega (arith, c.0),
  rw c.1 (total-Counts (sum ns) n h ∙ ap pos (omega arith)),
  Extremes-cons n ns t c.2,
)

-- The numbers of the durations, in front of those counted before, the latest first.
abbrev pub onto : List ℕ → List ℕ → List ℕ
onto [] seen = seen
onto (n ∷ ns) seen = onto ns (n ∷ seen)

sum-onto : (ns seen : List ℕ) → sum (onto ns seen) ≡ sum ns + sum seen
sum-onto [] seen = omega arith
sum-onto (n ∷ ns) seen = omega (arith, sum-onto ns (n ∷ seen))

tally-Counts :
    (rs : List (Option PingResponse)) (ns seen : List ℕ) (t : Tally)
    → AreNumbers (durations rs) ns
    → sum ns + sum seen < 2 ^ 63
    → Counts seen t
    → Counts (onto ns seen) (tally rs t)
unfolding tally
tally-Counts [] [] seen t a h c = c
tally-Counts [] (n ∷ ns) seen t a h c = absurd a
tally-Counts (none ∷ rs) ns seen t a h c = tally-Counts rs ns seen t a h c
tally-Counts (some r ∷ rs) [] seen t a h c = absurd a
tally-Counts (some r ∷ rs) (n ∷ ns) seen t a h c =
    subst (λ z. Counts (onto ns (n ∷ seen)) (tally rs (count_rtt z t))) (sym a.0)
      (tally-Counts rs ns (n ∷ seen) (count_rtt (pos n) t) a.1 (omega arith)
        (count_rtt-Counts n seen t (omega arith) c))

Contains-onto :
    (m : ℕ) (ns seen : List ℕ) → Contains m (onto ns seen) → Contains m ns ⊎ Contains m seen
Contains-onto m [] seen c = inr c
Contains-onto m (n ∷ ns) seen c = elim (Contains-onto m ns (n ∷ seen) c) [
  | inl here ↦ inl (inr here)
  | inr (inl now) ↦ inl (inl now)
  | inr (inr before) ↦ inr before
]

All-onto : (P : ℕ → Type 0) (ns seen : List ℕ) → All P (onto ns seen) → All P ns × All P seen
All-onto P [] seen h = (tt, h)
All-onto P (n ∷ ns) seen h = let rest = All-onto P ns (n ∷ seen) h in ((rest.1.0, rest.0), rest.1.1)

Contains-none : (m : ℕ) (ns : List ℕ) → Contains m ns ⊎ Contains m [] → Contains m ns
Contains-none m ns (inl c) = c
Contains-none m ns (inr c) = absurd c

length-onto : (ns seen : List ℕ) → length (onto ns seen) ≡ length ns + length seen
length-onto [] seen = omega arith
length-onto (n ∷ ns) seen = omega (arith, length-onto ns (n ∷ seen))

mul-le-sum : (lo : ℕ) (ns : List ℕ) → All (λ x. lo ≤ x) ns → lo * length ns ≤ sum ns
mul-le-sum lo [] h = omega arith
mul-le-sum lo (n ∷ ns) h = grind (arith, mul-le-sum lo ns h.1)

sum-le-mul : (hi : ℕ) (ns : List ℕ) → All (λ x. x ≤ hi) ns → sum ns ≤ length ns * hi
sum-le-mul hi [] h = omega arith
sum-le-mul hi (n ∷ ns) h = grind (arith, sum-le-mul hi ns h.1)

tally_none :
    (rs : List (Option PingResponse)) (t : Tally) → AreNumbers (durations rs) [] → tally rs t ≡ t
unfolding tally
tally_none [] t a = refl
tally_none (none ∷ rs) t a = tally_none rs t a
tally_none (some r ∷ rs) t a = absurd a

pub recv-tally :
    (rs : List (Option PingResponse)) (t : Tally)
    → (tally rs t).recv ≡ t.recv + length (durations rs)
unfolding tally count_rtt
recv-tally [] t = omega arith
recv-tally (none ∷ rs) t = recv-tally rs t
recv-tally (some r ∷ rs) t = omega (arith, recv-tally rs (count_rtt r.rtt t))

-- What the statistics of the durations `n ∷ ns` are.
abbrev pub Summary : ℕ → List ℕ → Tally → Type 0
Summary n ns t =
    (lo : ℕ) × (hi : ℕ) × (t.recv ≡ suc (length ns))
    × (t.min_rtt ≡ pos lo)
    × (t.max_rtt ≡ pos hi)
    × (average_rtt t ≡ pos ((n + sum ns) / suc (length ns)))
    × (Contains lo (n ∷ ns) × Contains hi (n ∷ ns))
    × (All (λ x. lo ≤ x) (n ∷ ns) × All (λ x. x ≤ hi) (n ∷ ns))
    × ((lo ≤ (n + sum ns) / suc (length ns)) × ((n + sum ns) / suc (length ns) ≤ hi))

average-Counts :
    (t : Tally) (k s : ℕ) → t.recv ≡ suc k → t.total_rtt ≡ pos s → average_rtt t ≡ pos (s / suc k)
unfolding average_rtt
average-Counts t k s e f = rw (e, f) (ground arith)

summarise :
    (n : ℕ) (ns seen : List ℕ) (t : Tally)
    → onto (n ∷ ns) [] ≡ seen
    → Counts seen t
    → Summary n ns t
summarise n ns [] t e c = absurd (omega (arith, ap length e, length-onto (n ∷ ns) []))
summarise n ns (m ∷ seen) t e c =
    let (lo, lo_eq, lo_in, below) = c.2.1 in
    let (hi, hi_eq, hi_in, above) = c.2.2 in
    let recv : t.recv ≡ suc (length ns) =
      omega (arith, c.0, ap length e, length-onto (n ∷ ns) []) in
    let total : t.total_rtt ≡ pos (n + sum ns) =
      c.1 ∙ ap pos (omega (arith, ap sum e, sum-onto (n ∷ ns) [])) in
    let all_below = (All-onto (λ x. lo ≤ x) (n ∷ ns) [] (rw e below)).0 in
    let all_above = (All-onto (λ x. x ≤ hi) (n ∷ ns) [] (rw e above)).0 in
    (
      lo,
      hi,
      recv,
      lo_eq,
      hi_eq,
      average-Counts t (length ns) (n + sum ns) recv total,
      (
        Contains-none lo (n ∷ ns) (Contains-onto lo (n ∷ ns) [] (rw e lo_in)),
        Contains-none hi (n ∷ ns) (Contains-onto hi (n ∷ ns) [] (rw e hi_in)),
      ),
      (all_below, all_above),
      (
        (le-div_iff_mul-le (omega arith)).1 (mul-le-sum lo (n ∷ ns) all_below),
        div-le_of_le-mul (suc (length ns)) (sum-le-mul hi (n ∷ ns) all_above),
      ),
    )

-- If the round trips of the responses are not negative and their sum fits an int64, then the number
-- of responses is counted; and with at least one, the minimum and the maximum are round trips that no
-- other one is below or above, and the average is their sum divided by their number, rounded down, and
-- lies between the minimum and the maximum. Without a response all four are 0.
pub tally-Summary :
    (rs : List (Option PingResponse)) (ns : List ℕ)
    → AreNumbers (durations rs) ns
    → sum ns < 2 ^ 63
    → ((ns ≡ []) × (tally rs no_tally ≡ no_tally) × (average_rtt (tally rs no_tally) ≡ pos 0))
      ⊎ ((n : ℕ) × (rest : List ℕ) × (ns ≡ n ∷ rest) × Summary n rest (tally rs no_tally))
unfolding average_rtt
tally-Summary rs [] a h = let e = tally_none rs no_tally a in inl (refl, e, rw e refl)
tally-Summary rs (n ∷ ns) a h = inr (
  n,
  ns,
  refl,
  summarise n ns _ _ refl (tally-Counts rs (n ∷ ns) [] no_tally a (omega arith) (refl, refl, refl)),
)
