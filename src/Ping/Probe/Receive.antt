-- ===== src/Ping/Probe/Receive.antt =====
-- Which answer the loop of a ping waits for (check/pinger.go).
use rackspace_monitoring_pol.Base.{
  ℕ, ◌<◌, ◌≤◌, ◌≡◌, ◌≢◌, refl, ap, ◌∙◌, ◌⊎◌, inl, inr, true, false, ◌&&◌, none, some, List, [], ◌∷◌,
  ◌++◌, arith, length, str_eq, eq_iff, ◌==◌, All,
}
use text.Mathlib.TextPositions.{eq_refl}
use rackspace_monitoring_pol.Base.Int.{ℤ, pos}
use rackspace_monitoring_pol.Ping.Probe.{
  TimeCodec, Read, timed_out, failed, unparsed, message, echo, dst_unreach, other_body, Pinger,
  error_response, ping_payload, echo_response, judge, receive,
}
use rackspace_monitoring_pol.Ping.Probe.Payload.{HasNoZero, sent_time-ping_payload}

-- A packet that is no echo to this pinger: it does not parse, has another body, comes from elsewhere,
-- is of a type that is not expected, or has another id.
abbrev pub IsForeign : Pinger → Read → Type 0
IsForeign p (timed_out e) = ⊥
IsForeign p (failed e) = ⊥
IsForeign p (unparsed peer) = Unit
IsForeign p (message peer expected (echo id seq payload)) =
    (peer ≢ p.remote_addr) ⊎ (expected ≡ false) ⊎ (id ≢ p.id)
IsForeign p (message peer expected dst_unreach) = Unit
IsForeign p (message peer expected other_body) = Unit

module _ (time : TimeCodec) (since : time.Time → ℤ) (p : Pinger) where
  open time use {Time}

  -- An echo of the ping that this pinger sent at `t` with the number `seq`.
  abbrev own_echo : ℕ → Time → Read
  own_echo seq t = message p.remote_addr true (echo p.id seq (ping_payload time p.identifier t))

  judge_foreign : (r : Read) → IsForeign p r → judge time since p r ≡ none
  unfolding judge
  judge_foreign (timed_out e) h = absurd h
  judge_foreign (failed e) h = absurd h
  judge_foreign (unparsed peer) h = refl
  judge_foreign (message peer expected dst_unreach) h = refl
  judge_foreign (message peer expected other_body) h = refl
  judge_foreign (message peer expected (echo id seq payload)) h =
      let mine : (str_eq peer p.remote_addr && expected && id == p.id) ≡ false =
        ground (arith, eq_iff peer p.remote_addr, h) in
      rw (mine, judge) refl

  receive_skips :
      (skipped rest : List Read)
      → All (IsForeign p) skipped
      → receive time since p (skipped ++ rest) ≡ receive time since p rest
  unfolding receive
  receive_skips [] rest h = refl
  receive_skips (r ∷ rs) rest h = rw (receive, judge_foreign r h.0) (receive_skips rs rest h.1)

  judge_own :
      (seq : ℕ) (t : Time)
      → judge time since p (own_echo seq t)
        ≡ (elim (echo_response time since seq (ping_payload time p.identifier t)) [
          | none ↦ none
          | some r ↦ some (record { response = r; closed = false })
        ])
  unfolding judge
  judge_own seq t =
      let mine : (str_eq p.remote_addr p.remote_addr && true && p.id == p.id) ≡ true =
        ground (arith, eq_refl p.remote_addr) in
      rw (judge, mine) refl

  judge_answer :
      (seq : ℕ) (t : Time)
      → HasNoZero p.identifier
      → length p.identifier ≤ 47
      → judge time since p (own_echo seq t)
        ≡ some (record {
          response = record { seq = pos seq; rtt = since t; timeout = false; err = none };
          closed = false;
        })
  unfolding echo_response
  judge_answer seq t z short =
      judge_own seq t
      ∙ rw (echo_response, (sent_time-ping_payload time p.identifier t z).1 short) refl

  judge_long :
      (seq : ℕ) (t : Time)
      → HasNoZero p.identifier
      → 47 < length p.identifier
      → judge time since p (own_echo seq t) ≡ none
  unfolding echo_response
  judge_long seq t z long =
      judge_own seq t
      ∙ rw (echo_response, (sent_time-ping_payload time p.identifier t z).2 long) refl

  receive_unanswered :
      (reads : List Read)
      → HasNoZero p.identifier
      → 47 < length p.identifier
      → All (λ r. IsForeign p r ⊎ ((n : ℕ) × (s : Time) × (r ≡ own_echo n s))) reads
      → receive time since p reads
        ≡ record { response = error_response "i/o timeout" true; closed = false }
  unfolding receive
  receive_unanswered [] z long h = refl
  receive_unanswered (r ∷ rs) z long h = elim h.0 [
    | inl foreign ↦ rw (receive, judge_foreign r foreign) (receive_unanswered rs z long h.1)
    | inr (n, s, e) ↦
        rw (receive, ap (judge time since p) e ∙ judge_long n s z long)
          (receive_unanswered rs z long h.1)
  ]

  -- After any packets that are foreign, the echo of a ping of this pinger is the answer, with the
  -- number and the time since the sending, if the pinger's identifier, the id of its check, has at most
  -- 47 bytes and none is zero. With a longer one no echo is ever an answer: if only foreign packets and
  -- echoes come, then the ping ends by its timeout.
  pub receive-own_echo :
      (skipped rest : List Read) (seq : ℕ) (t : Time)
      → HasNoZero p.identifier
      → All (IsForeign p) skipped
      → (length p.identifier ≤ 47
          → receive time since p (skipped ++ own_echo seq t ∷ rest) ≡ record {
            response = record { seq = pos seq; rtt = since t; timeout = false; err = none };
            closed = false;
          })
        × (47 < length p.identifier
            → All (λ r. IsForeign p r ⊎ ((n : ℕ) × (s : Time) × (r ≡ own_echo n s))) rest
            → receive time since p (skipped ++ own_echo seq t ∷ rest)
              ≡ record { response = error_response "i/o timeout" true; closed = false })
  unfolding receive
  receive-own_echo skipped rest seq t z foreign = (
    λ short. receive_skips skipped _ foreign ∙ rw (receive, judge_answer seq t z short) refl,
    λ long others.
        receive_skips skipped _ foreign
        ∙ rw (receive, judge_long seq t z long) (receive_unanswered rest z long others),
  )
