-- ===== src/Ping/Slots.antt =====
-- Which responses the loop of a ping check keeps (check/check_ping.go).
use rackspace_monitoring_pol.Base.{
  ℕ, zero, suc, ◌+◌, ◌-◌, ◌<◌, ◌≤◌, ◌≡◌, refl, ◌∙◌, String, Bool, true, false, ◌||◌, Option, none,
  some, List, [], ◌∷◌, arith, length, replicate, get_elem?, set, ltb, ◌==◌, if◌then◌else◌,
  Bool-cases, inl, inr, ◌⊎◌,
}
use rackspace_monitoring_pol.Base.Int.{ℤ, pos, negsuc, ltb_ℤ, leb_ℤ}
use rackspace_monitoring_pol.Ping.{
  PingResponse, Turn, expired, replied, Progress, fill, keep_at, keep_response, take_as, take_reply,
  packet_loop, run_pings,
}

abbrev pub has_seq : ℤ → ℕ → Bool
has_seq (pos n) i = n == suc i
has_seq (negsuc n) i = false

abbrev pub answers_as : Option String → ℤ → ℕ → Bool
answers_as none seq i = has_seq seq i
answers_as (some e) seq i = false

-- The response is no error and answers the ping of the slot `i`.
abbrev pub answers : ℕ → PingResponse → Bool
answers i r = answers_as r.err r.seq i

abbrev pub error_after : Option String → Bool → Option String → Option String
error_after none timeout e = e
error_after (some x) timeout e = if timeout then e else some x

-- The first of the turns' responses that answers the ping of the slot, before the overall timeout.
abbrev pub first_answer : ℕ → (ℕ → Turn) → ℕ → ℕ → Option PingResponse
first_answer i turn seq zero = none
first_answer i turn seq (suc left) = elim (turn seq) [
  | expired ↦ none
  | replied r ↦ if answers i r then some r else first_answer i turn (seq + 1) left
]

-- The last error of the turns that is no timeout, or else the given one.
abbrev pub last_error : (ℕ → Turn) → ℕ → ℕ → Option String → Option String
last_error turn seq zero e = e
last_error turn seq (suc left) e = elim (turn seq) [
  | expired ↦ e
  | replied r ↦ last_error turn (seq + 1) left (error_after r.err r.timeout e)
]

abbrev pub or_else {ℓ} : {A : Type ℓ} → Option A → Option A → Option A
or_else none o = o
or_else (some a) o = some a

length-set {ℓ} : {A : Type ℓ} (xs : List A) (i : ℕ) (v : A) → length (set xs i v) ≡ length xs
length-set [] i v = refl
length-set (x ∷ xs) zero v = refl
length-set (x ∷ xs) (suc i) v = omega (arith, length-set xs i v)

get_elem?-set {ℓ} :
    {A : Type ℓ} (xs : List A) (j i : ℕ) (v : A)
    → j < length xs
    → get_elem? (set xs j v) i ≡ (if j == i then some v else get_elem? xs i)
get_elem?-set [] j i v h = absurd (omega arith)
get_elem?-set (x ∷ xs) zero zero v h = refl
get_elem?-set (x ∷ xs) zero (suc i) v h = ground arith
get_elem?-set (x ∷ xs) (suc j) zero v h = ground arith
get_elem?-set (x ∷ xs) (suc j) (suc i) v h = ground (arith, get_elem?-set xs j i v)

get_elem?-lt {ℓ} :
    {A : Type ℓ} (xs : List A) (i : ℕ) → i < length xs → (a : A) × (get_elem? xs i ≡ some a)
get_elem?-lt [] i h = absurd (omega arith)
get_elem?-lt (x ∷ xs) zero h = (x, refl)
get_elem?-lt (x ∷ xs) (suc i) h = get_elem?-lt xs i (omega arith)

-- What a slot holds after a response with the number `s`.
abbrev Kept : ℤ → PingResponse → Progress → Progress → Type 0
Kept s r p p' =
    (length p'.responses ≡ length p.responses)
    × (p'.ping_err ≡ p.ping_err)
    × ((i : ℕ) (o : Option PingResponse)
        → get_elem? p.responses i ≡ some o
        → get_elem? p'.responses i ≡ some (or_else o (if has_seq s i then some r else none)))

or_else-none {ℓ} : {A : Type ℓ} (o : Option A) → or_else o none ≡ o
or_else-none none = refl
or_else-none (some a) = refl

get_elem?-some-lt {ℓ} :
    {A : Type ℓ} (xs : List A) (i : ℕ) (a : A) → get_elem? xs i ≡ some a → i < length xs
get_elem?-some-lt [] i a e = cc
get_elem?-some-lt (x ∷ xs) zero a e = omega arith
get_elem?-some-lt (x ∷ xs) (suc i) a e = omega (arith, get_elem?-some-lt xs i a e)

keep_past :
    (n : ℕ) (r : PingResponse) (p : Progress)
    → length p.responses ≤ n
    → keep_at (pos (suc n)) r p ≡ p
unfolding keep_at
keep_past n r p h = ground arith

keep_within :
    (n : ℕ) (r : PingResponse) (p : Progress)
    → n < length p.responses
    → keep_at (pos (suc n)) r p ≡ fill (get_elem? p.responses n) n r p
unfolding keep_at
keep_within n r p h =
    let e : suc n - 1 ≡ n = omega arith in
    let valid : (leb_ℤ (pos (suc n)) (pos 0) || ltb_ℤ (pos (length p.responses)) (pos (suc n)))
        ≡ false =
      ground arith in
    rw (keep_at, valid, e) refl

keep_free-Kept :
    (n : ℕ) (r : PingResponse) (p : Progress)
    → n < length p.responses
    → get_elem? p.responses n ≡ some none
    → Kept (pos (suc n)) r p (record p { responses = set p.responses n (some r) })
keep_free-Kept n r p h e = (
  length-set p.responses n (some r),
  refl,
  λ i o l. get_elem?-set p.responses n i (some r) h ∙ ground (arith, e, l),
)

keep_taken-Kept :
    (n : ℕ) (r x : PingResponse) (p : Progress)
    → get_elem? p.responses n ≡ some (some x)
    → Kept (pos (suc n)) r p p
keep_taken-Kept n r x p e = (refl, refl, λ i o l. ground (arith, e, l))

filled-Kept :
    (n : ℕ) (r : PingResponse) (p : Progress)
    → n < length p.responses
    → (slot : Option (Option PingResponse)) → get_elem? p.responses n ≡ slot
    → Kept (pos (suc n)) r p (fill slot n r p)
filled-Kept n r p h none e = let (slot, found) = get_elem?-lt p.responses n h in cc (e, found)
filled-Kept n r p h (some none) e = keep_free-Kept n r p h e
filled-Kept n r p h (some (some x)) e = keep_taken-Kept n r x p e

keep_negative : (n : ℕ) (r : PingResponse) (p : Progress) → keep_at (negsuc n) r p ≡ p
unfolding keep_at
keep_negative n r p = ground arith

keep-Kept : (s : ℤ) (r : PingResponse) (p : Progress) → Kept s r p (keep_at s r p)
unfolding keep_at
keep-Kept (negsuc n) r p =
    rw (keep_negative n r p) (refl, refl, λ i o l. ground (arith, l, or_else-none o))
keep-Kept (pos zero) r p = (refl, refl, λ i o l. ground (arith, l, or_else-none o))
keep-Kept (pos (suc n)) r p = elim (Bool-cases (ltb n (length p.responses))) [
  | inl within ↦
      rw (keep_within n r p (ground arith))
        (filled-Kept n r p (ground arith) (get_elem? p.responses n) refl)
  | inr past ↦
      rw (keep_past n r p (ground arith)) (
        refl,
        refl,
        λ i o l. ground (arith, l, or_else-none o, get_elem?-some-lt p.responses i o l),
      )
]

-- What a turn's response makes of the slots and of the error.
abbrev Taken : Option String → PingResponse → Progress → Progress → Type 0
Taken err r p p' =
    (length p'.responses ≡ length p.responses)
    × (p'.ping_err ≡ error_after err r.timeout p.ping_err)
    × ((i : ℕ) (o : Option PingResponse)
        → get_elem? p.responses i ≡ some o
        → get_elem? p'.responses i
          ≡ some (or_else o (if answers_as err r.seq i then some r else none)))

take-Taken :
    (err : Option String) (r : PingResponse) (p : Progress) → Taken err r p (take_as err r p)
unfolding take_as keep_response
take-Taken none r p = keep-Kept r.seq r p
take-Taken (some e) r p = (ground arith, ground arith, λ i o l. ground (arith, l, or_else-none o))

Turn-cases : (t : Turn) → (t ≡ expired) ⊎ ((r : PingResponse) × (t ≡ replied r))
Turn-cases expired = inl refl
Turn-cases (replied r) = inr (r, refl)

or_else_later {ℓ} :
    {A : Type ℓ} (o : Option A) (b : Bool) (a : A) (rest : Option A)
    → or_else (or_else o (if b then some a else none)) rest ≡ or_else o (if b then some a else rest)
or_else_later none true a rest = refl
or_else_later none false a rest = refl
or_else_later (some x) b a rest = refl

loop-Slots :
    (turn : ℕ → Turn) (seq left : ℕ) (p : Progress) (i : ℕ) (o : Option PingResponse)
    → get_elem? p.responses i ≡ some o
    → get_elem? (packet_loop turn seq left p).responses i
      ≡ some (or_else o (first_answer i turn seq left))
unfolding packet_loop take_reply
loop-Slots turn seq zero p i o l = ground (arith, l, or_else-none o)
loop-Slots turn seq (suc left) p i o l = elim (Turn-cases (turn seq)) [
  | inl e ↦ rw (packet_loop, first_answer, e, or_else-none o) l
  | inr (r, e) ↦
      rw (packet_loop, first_answer, e)
        (loop-Slots turn (seq + 1) left (take_as r.err r p) i _ ((take-Taken r.err r p).2 i o l)
          ∙ rw (or_else_later o (answers i r) r (first_answer i turn (seq + 1) left)) refl)
]

loop-Rest :
    (turn : ℕ → Turn) (seq left : ℕ) (p : Progress)
    → (length (packet_loop turn seq left p).responses ≡ length p.responses)
      × ((packet_loop turn seq left p).ping_err ≡ last_error turn seq left p.ping_err)
unfolding packet_loop take_reply
loop-Rest turn seq zero p = (refl, refl)
loop-Rest turn seq (suc left) p = elim (Turn-cases (turn seq)) [
  | inl e ↦ rw (packet_loop, last_error, e) (refl, refl)
  | inr (r, e) ↦
      let taken = take-Taken r.err r p in
      let later = loop-Rest turn (seq + 1) left (take_as r.err r p) in
      rw (packet_loop, last_error, e) (later.0 ∙ taken.0, later.1 ∙ rw taken.1 refl)
]

length-replicate {ℓ} : {A : Type ℓ} (n : ℕ) (a : A) → length (replicate n a) ≡ n
length-replicate zero a = refl
length-replicate (suc n) a = omega (arith, length-replicate n a)

get_elem?-replicate {ℓ} :
    {A : Type ℓ} (n i : ℕ) (a : A) → i < n → get_elem? (replicate n a) i ≡ some a
get_elem?-replicate zero i a h = absurd (omega arith)
get_elem?-replicate (suc n) zero a h = refl
get_elem?-replicate (suc n) (suc i) a h = get_elem?-replicate n i a (omega arith)

-- A ping check with `count` pings has a slot for each of them. A slot holds the first response without
-- an error that has the slot's sequence number, of the turns before the overall timeout, whichever
-- turn it came in; and the error is the last one of those turns that is no timeout.
pub run_pings-Slots :
    (turn : ℕ → Turn) (count : ℕ)
    → let p = run_pings turn count in
      (length p.responses ≡ count)
      × (p.ping_err ≡ last_error turn 1 count none)
      × ((i : ℕ) → i < count → get_elem? p.responses i ≡ some (first_answer i turn 1 count))
unfolding run_pings
run_pings-Slots turn count =
    let rest =
      loop-Rest turn 1 count (record { responses = replicate count none; ping_err = none }) in
    (
      rest.0 ∙ length-replicate count none,
      rest.1,
      λ i h. loop-Slots turn 1 count _ i none (get_elem?-replicate count i none h),
    )
