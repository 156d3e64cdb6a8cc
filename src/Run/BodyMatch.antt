-- ===== src/Run/BodyMatch.antt =====
-- What the body of a TCP check is for (check/check_tcp.go).
use rackspace_monitoring_pol.Base.{
  ◌≡◌, ◌≢◌, refl, ◌⊎◌, inl, inr, ◌↔◌, String, Option, none, some, List, [], ◌∷◌, str_eq, eq_iff,
  arith, Bool-cases, Option-cases,
}
use rackspace_monitoring_pol.Base.Int.{ℤ}
use rackspace_monitoring_pol.Base.Text.{crop}
use rackspace_monitoring_pol.Base.Outcome.{panic}
use rackspace_monitoring_pol.Check.Details.{TcpDetails}
use rackspace_monitoring_pol.Results.{Result, status_success}
use rackspace_monitoring_pol.Run.{Regexp, Attempt, going, failed, refused, crashed, ◌>>=◌, complete}
use rackspace_monitoring_pol.Run.Tcp.{
  TcpInput, max_tcp_banner_length, dial, send_body, banner_metric, match_banner, match_body,
  finish_tcp, attempt_tcp, run_tcp,
}

-- The stage does not crash the poller.
abbrev pub Runs {ℓ} : {A : Type ℓ} → Attempt A → Type 0
Runs (going a) = Unit
Runs (failed e r) = Unit
Runs (refused e r) = Unit
Runs crashed = ⊥

pub Runs-bind {ℓ κ} :
    {A : Type ℓ} {B : Type κ} (m : Attempt A) (f : A → Attempt B)
    → Runs m
    → ((a : A) → Runs (f a))
    → Runs (m >>= f)
Runs-bind (going a) f h g = g a
Runs-bind (failed e r) f h g = tt
Runs-bind (refused e r) f h g = tt
Runs-bind crashed f h g = h

pub sum-cases {ℓ κ} :
    {A : Type ℓ} {B : Type κ} (s : A ⊎ B) → ((a : A) × (s ≡ inl a)) ⊎ ((b : B) × (s ≡ inr b))
sum-cases (inl a) = inl (a, refl)
sum-cases (inr b) = inr (b, refl)

module _ (rx : Regexp) (lower : String → String) (now : ℤ) (d : TcpDetails) (io : TcpInput) where
  open rx use {compile, groups, find_submatch, find_submatch-length}

  dial-Runs : Runs (dial rx lower now d io)
  unfolding dial
  dial-Runs = elim (Option-cases io.dial_error) [
    | inl e ↦ rw (dial, e) tt
    | inr (x, e) ↦ rw (dial, e) tt
  ]

  send_body-Runs : (r : Result) → Runs (send_body rx lower now d io r)
  unfolding send_body
  send_body-Runs r = elim (Bool-cases (str_eq d.send_body "")) [
    | inl none_to_send ↦ rw (send_body, none_to_send) tt
    | inr some_to_send ↦ elim (Option-cases io.write_error) [
      | inl e ↦ rw (send_body, some_to_send, e) tt
      | inr (x, e) ↦ rw (send_body, some_to_send, e) tt
    ]
  ]

  banner_metric-Runs : (line : String) (r : Result) → Runs (banner_metric rx lower now d io line r)
  unfolding banner_metric
  banner_metric-Runs line r = elim (sum-cases (compile d.banner_match)) [
    | inl (x, e) ↦ rw (banner_metric, e) tt
    | inr (re, e) ↦ found re e (find_submatch re line) refl
  ]
    where
      found :
          (re : rx.Pattern)
          → compile d.banner_match ≡ inr re
          → (o : Option (List String)) → find_submatch re line ≡ o
          → Runs (banner_metric rx lower now d io line r)
      found re e none f = rw (banner_metric, e, f) tt
      found re e (some []) f = absurd (omega (arith, find_submatch-length re line [] f))
      found re e (some (m ∷ ms)) f = rw (banner_metric, e, f) tt

  match_banner-Runs : (r : Result) → Runs (match_banner rx lower now d io r)
  unfolding match_banner
  match_banner-Runs r = elim (Bool-cases (str_eq d.banner_match "")) [
    | inl unused ↦ rw (match_banner, unused) tt
    | inr used ↦ elim (sum-cases io.line) [
      | inl (x, e) ↦ rw (match_banner, used, e) tt
      | inr (line, e) ↦
          rw (match_banner, used, e)
            (Runs-bind _ _ (banner_metric-Runs (crop max_tcp_banner_length line) r) (λ r'. tt))
    ]
  ]

  -- The run up to the body match.
  abbrev pub before_body : Attempt Result
  before_body =
      dial rx lower now d io >>= send_body rx lower now d io >>= match_banner rx lower now d io

  before_body-Runs : Runs before_body
  before_body-Runs = Runs-bind _ _ (Runs-bind _ _ dial-Runs send_body-Runs) match_banner-Runs

  abbrev pub CrashesAtBody : Type 0
  CrashesAtBody =
      (d.body_match ≢ "")
      × ((b : String) × (io.body ≡ inr b))
      × ((e : String) × (compile d.body_match ≡ inl e))

  match_body-crashed : (r : Result) → (match_body rx lower now d io r ≡ crashed) ↔ CrashesAtBody
  unfolding match_body
  match_body-crashed r = elim (Bool-cases (str_eq d.body_match "")) [
    | inl unused ↦
        rw (match_body, unused) (λ h. cc, λ h. absurd (h.0 ((eq_iff d.body_match "").0 unused)))
    | inr used ↦ elim (sum-cases io.body) [
      | inl (x, e) ↦ rw (match_body, used, e) (λ h. cc, λ h. cc (e, h.1.1))
      | inr (b, e) ↦ elim (sum-cases (compile d.body_match)) [
        | inl (x, bad) ↦
            rw (match_body, used, e, bad)
              (
                λ h. (λ same. cc (used, (eq_iff d.body_match "").1 same), (b, refl), (x, refl)),
                λ h. refl,
              )
        | inr (re, good) ↦ rw (match_body, used, e, good) (λ h. cc, λ h. cc (good, h.2.1))
      ]
    ]
  ]

  crashed_within {ℓ} :
      {A : Type ℓ} (m : Attempt Result) (f : Result → Attempt Result) (g : Result → A)
      → Runs m
      → ((m >>= f >>= λ r. going (g r)) ≡ crashed)
        ↔ ((r : Result) × (m ≡ going r) × (f r ≡ crashed))
  crashed_within (going r) f g runs = at_going (f r) refl
    where
      at_going :
          (a : Attempt Result)
          → f r ≡ a
          → ((f r >>= λ s. going (g s)) ≡ crashed)
            ↔ ((s : Result) × (going r ≡ going s) × (f s ≡ crashed))
      at_going (going s) e = rw e (λ h. cc, λ h. cc (h.1, h.2, e))
      at_going (failed x s) e = rw e (λ h. cc, λ h. cc (h.1, h.2, e))
      at_going (refused x s) e = rw e (λ h. cc, λ h. cc (h.1, h.2, e))
      at_going crashed e = rw e (λ h. (r, refl, e), λ h. refl)
  crashed_within (failed e r) f g runs = (λ h. cc, λ h. cc (h.1))
  crashed_within (refused e r) f g runs = (λ h. cc, λ h. cc (h.1))
  crashed_within crashed f g runs = absurd runs

  complete-panic {ℓ} :
      {C : Type ℓ} (check : C) (a : Attempt (Result × String))
      → (complete check a ≡ panic) ↔ (a ≡ crashed)
  complete-panic check (going a) = (λ h. cc, λ h. cc)
  complete-panic check (failed e r) = (λ h. cc, λ h. cc)
  complete-panic check (refused e r) = (λ h. cc, λ h. cc)
  complete-panic check crashed = (λ h. refl, λ h. refl)

  -- A TCP check crashes the poller exactly if the run gets as far as the body match, the body was read,
  -- and the pattern for it does not compile; and with a pattern that compiles, the body that was read
  -- makes no difference to what the run comes to.
  pub run_tcp-panic {ℓ} :
      {C : Type ℓ} (check : C)
      → ((run_tcp rx lower now d io check ≡ panic)
          ↔ (((r : Result) × (before_body ≡ going r)) × CrashesAtBody))
        × ((a b : String)
            → run_tcp rx lower now d (record io { body = inr a }) check
              ≡ run_tcp rx lower now d (record io { body = inr b }) check)
  unfolding run_tcp attempt_tcp dial send_body match_banner banner_metric match_body finish_tcp
  run_tcp-panic check =
      let ended = complete-panic check (attempt_tcp rx lower now d io) in
      let finish : Result → Result × String =
        λ r. (finish_tcp rx lower now d io r, status_success) in
      let within =
        crashed_within before_body (match_body rx lower now d io) finish before_body-Runs in
      (
        (
          λ h. let (r, e, f) = within.0 (ended.0 h) in ((r, e), (match_body-crashed r).0 f),
          λ h. ended.1 (within.1 (h.0.0, h.0.1, (match_body-crashed h.0.0).1 h.1)),
        ),
        λ a b. refl,
      )
