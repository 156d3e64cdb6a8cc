-- ===== src/Ping/Probe/Payload.antt =====
-- The payload of a ping, as its echo is read back (check/pinger.go).
use rackspace_monitoring_pol.Base.{
  ℕ, zero, suc, ◌+◌, ◌-◌, ◌%◌, ◌<◌, ◌≤◌, ◌≡◌, refl, sym, ap, ◌∙◌, false, Option, none, some, List,
  [], ◌∷◌, ◌++◌, arith, length, take, ◌==◌, All, length-append, length-take-le, leb, Bool-cases,
  inl, inr,
}
use mathlib.Core.List.{append_assoc}
use rackspace_monitoring_pol.Ping.Probe.{TimeCodec, padding, read_string, ping_payload, sent_time}

abbrev pub HasNoZero : List ℕ → Type 0
HasNoZero bytes = All (λ b. (b == 0) ≡ false) bytes

read_string-append : (s rest : List ℕ) → HasNoZero s → read_string (s ++ 0 ∷ rest) ≡ some (s, rest)
unfolding read_string
read_string-append [] rest h = first (read_string rest) refl
  where
    first :
        (o : Option (List ℕ × List ℕ))
        → read_string rest ≡ o
        → read_string (0 ∷ rest) ≡ some ([], rest)
    first none e = rw (read_string, e) refl
    first (some p) e = rw (read_string, e) refl
read_string-append (b ∷ s) rest h = rw (read_string-append s rest h.1, h.0) refl

read_string-none : (s : List ℕ) → HasNoZero s → read_string s ≡ none
unfolding read_string
read_string-none [] h = refl
read_string-none (b ∷ s) h = rw (read_string-none s h.1, h.0) refl

take-HasNoZero : (n : ℕ) (s : List ℕ) → HasNoZero s → HasNoZero (take n s)
take-HasNoZero zero s h = tt
take-HasNoZero (suc n) [] h = tt
take-HasNoZero (suc n) (b ∷ s) h = (h.0, take-HasNoZero n s h.1)

module _ {ℓ} {A : Type ℓ} where
  take-append : (n k : ℕ) (xs ys : List A) → n ≡ length xs + k → take n (xs ++ ys) ≡ xs ++ take k ys
  take-append n k [] ys h = ap (λ m. take m ys) (omega arith)
  take-append zero k (x ∷ xs) ys h = absurd (omega arith)
  take-append (suc n) k (x ∷ xs) ys h = ap (λ l. x ∷ l) (take-append n k xs ys (omega arith))

  take-append_long : (n : ℕ) (xs ys : List A) → n ≤ length xs → take n (xs ++ ys) ≡ take n xs
  take-append_long zero xs ys h = refl
  take-append_long (suc n) [] ys h = absurd (omega arith)
  take-append_long (suc n) (x ∷ xs) ys h = ap (λ l. x ∷ l) (take-append_long n xs ys (omega arith))

  take-take : (n m : ℕ) (xs : List A) → n ≤ m → take n (take m xs) ≡ take n xs
  take-take zero m xs h = refl
  take-take (suc n) zero xs h = absurd (omega arith)
  take-take (suc n) (suc m) [] h = refl
  take-take (suc n) (suc m) (x ∷ xs) h = ap (λ l. x ∷ l) (take-take n m xs (omega arith))

  take_all : (xs ys : List A) → take (length xs) (xs ++ ys) ≡ xs
  take_all [] ys = refl
  take_all (x ∷ xs) ys = ap (λ l. x ∷ l) (take_all xs ys)

  length-take-le_length : (n : ℕ) (xs : List A) → length (take n xs) ≤ length xs
  length-take-le_length zero xs = omega arith
  length-take-le_length (suc n) [] = omega arith
  length-take-le_length (suc n) (x ∷ xs) = omega (arith, length-take-le_length n xs)

length-padding : (missing pad_byte : ℕ) → length (padding missing pad_byte) ≡ missing
unfolding padding
length-padding zero b = refl
length-padding (suc n) b = omega (arith, length-padding n ((b + 1) % 256))

module _ (time : TimeCodec) where
  open time use {Time, marshal, unmarshal, marshal_length, unmarshal-marshal, unmarshal_short}

  payload_parts :
      (identifier : List ℕ) (t : Time)
      → (pad : List ℕ) × (ping_payload time identifier t
          ≡ identifier ++ (0 ∷ 15 ∷ (marshal t ++ pad)))
        × (length pad ≡ 56 - (length identifier + 17))
  unfolding ping_payload
  payload_parts identifier t =
      let written = identifier ++ 0 ∷ 15 ∷ marshal t in
      let pad = padding (56 - length written) 1 in
      let size : length written ≡ length identifier + 17 =
        omega (arith, length-append identifier (0 ∷ 15 ∷ marshal t), marshal_length t) in
      (
        pad,
        rw (ping_payload, marshal_length t) (append_assoc identifier (0 ∷ 15 ∷ marshal t) pad),
        length-padding (56 - length written) 1 ∙ rw size refl,
      )

  -- A payload whose identifier and time fit the 64 bytes that are read.
  sent_time_fits :
      (identifier : List ℕ) (t : Time) (pad : List ℕ) (j : ℕ)
      → HasNoZero identifier
      → 64 ≡ length identifier + suc (suc j)
      → 15 ≤ j
      → sent_time time (identifier ++ (0 ∷ 15 ∷ (marshal t ++ pad))) ≡ some t
  unfolding sent_time
  sent_time_fits identifier t pad j z e h =
      let cut = take-append 64 (suc (suc j)) identifier (0 ∷ 15 ∷ (marshal t ++ pad)) e in
      let time_bytes : take 15 (take j (marshal t ++ pad)) ≡ marshal t =
        take-take 15 j (marshal t ++ pad) h
        ∙ ap (λ k. take k (marshal t ++ pad)) (sym (marshal_length t))
        ∙ take_all (marshal t) pad in
      rw
        (
          sent_time,
          cut,
          read_string-append identifier (15 ∷ take j (marshal t ++ pad)) z,
          time_bytes,
        )
        (unmarshal-marshal t)

  sent_time_long :
      (identifier rest : List ℕ)
      → HasNoZero identifier
      → 64 ≤ length identifier
      → sent_time time (identifier ++ rest) ≡ none
  unfolding sent_time
  sent_time_long identifier rest z h =
      let none_read = read_string-none (take 64 identifier) (take-HasNoZero 64 identifier z) in
      rw (sent_time, take-append_long 64 identifier rest h, none_read) refl

  sent_time_cut :
      (identifier : List ℕ) (bytes : List ℕ) (k : ℕ)
      → HasNoZero identifier
      → 64 ≡ length identifier + k
      → k < 17
      → sent_time time (identifier ++ (0 ∷ 15 ∷ bytes)) ≡ none
  unfolding sent_time
  sent_time_cut identifier bytes zero z e h =
      sent_time_long identifier (0 ∷ 15 ∷ bytes) z (omega (arith, e))
  sent_time_cut identifier bytes (suc zero) z e h =
      rw
        (
          sent_time,
          take-append 64 1 identifier (0 ∷ 15 ∷ bytes) e,
          read_string-append identifier [] z,
        )
        refl
  sent_time_cut identifier bytes (suc (suc j)) z e h =
      rw
        (
          sent_time,
          take-append 64 (suc (suc j)) identifier (0 ∷ 15 ∷ bytes) e,
          read_string-append identifier (15 ∷ take j bytes) z,
        )
        (unmarshal_short (take 15 (take j bytes))
          (omega (arith, length-take-le_length 15 (take j bytes), length-take-le j bytes)))

  -- An identifier without a zero byte is written with the time of sending into at least 56 bytes. From
  -- an echo of them the time is read back exactly if the identifier is at most 47 bytes long: of a
  -- longer one nothing is read, since 64 bytes are looked at.
  pub sent_time-ping_payload :
      (identifier : List ℕ) (t : Time)
      → HasNoZero identifier
      → (56 ≤ length (ping_payload time identifier t))
        × (length identifier ≤ 47 → sent_time time (ping_payload time identifier t) ≡ some t)
        × (47 < length identifier → sent_time time (ping_payload time identifier t) ≡ none)
  sent_time-ping_payload identifier t z =
      let (pad, parts, size) = payload_parts identifier t in
      let bytes = marshal t ++ pad in
      rw parts (
        omega (
          arith,
          length-append identifier (0 ∷ 15 ∷ bytes),
          length-append (marshal t) pad,
          marshal_length t,
          size,
        ),
        λ short.
            sent_time_fits identifier t pad (62 - length identifier) z (omega arith) (omega arith),
        λ long. elim (Bool-cases (leb 64 (length identifier))) [
          | inl past ↦ sent_time_long identifier (0 ∷ 15 ∷ bytes) z (ground arith)
          | inr within ↦
              sent_time_cut identifier bytes (64 - length identifier) z (ground arith)
                (ground arith)
        ],
      )
