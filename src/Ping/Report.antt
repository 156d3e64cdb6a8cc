-- ===== src/Ping/Report.antt =====
-- What a ping check reports (check/check_ping.go).
use rackspace_monitoring_pol.Base.{
  ℕ, zero, suc, ◌*◌, ◌<◌, String, ◌≡◌, refl, ap, ◌∙◌, true, false, Option, none, some, [], ◌∷◌,
  arith, length, Option-cases, inl, inr,
}
use rackspace_monitoring_pol.Base.Int.{pos}
use rackspace_monitoring_pol.Base.Dict.{lookup, insert, string_eq}
use rackspace_monitoring_pol.Base.Text.{after_last}
use rackspace_monitoring_pol.Results.{
  int, quotient, new_metric, metric_number, metric_float, ResultSet, Result, States,
  set_status_from_error, state_available, state_unavailable, status_success, new_result,
  new_result_set,
}
use rackspace_monitoring_pol.Ping.{
  Turn, Tally, no_tally, tally, ping_count, run_pings, ping_metrics, conclude, run_ping,
}
use rackspace_monitoring_pol.Ping.Slots.{last_error, run_pings-Slots}
use rackspace_monitoring_pol.Ping.Statistics.{durations, recv-tally}

abbrev pub Concludes {ℓ} : {C : Type ℓ} → Option String → ℕ → ResultSet C → ResultSet C → Type ℓ
Concludes {C} err recv rs rs' =
    (rs'.metrics ≡ rs.metrics)
    × (rs'.check ≡ rs.check)
    × (err ≡ none
        → recv ≡ 0
        → (rs'.available ≡ false)
          × (rs'.states ≡ record { state = state_unavailable; status = "No responses received" }))
    × (err ≡ none
        → 0 < recv
        → (rs'.available ≡ true)
          × (rs'.states ≡ record { state = state_available; status = status_success }))
    × ((e : String)
        → err ≡ some e
        → (rs'.available ≡ false) × (rs'.states.state ≡ state_unavailable))

state_of_error : (e : String) (st : States) → (set_status_from_error e st).state ≡ st.state
unfolding set_status_from_error
state_of_error e st = elim (Option-cases (after_last 58 e)) [
  | inl h ↦ rw (set_status_from_error, h) refl
  | inr (r, h) ↦ rw (set_status_from_error, h) refl
]

conclude-Concludes {ℓ} :
    {C : Type ℓ} (err : Option String) (recv : ℕ) (rs : ResultSet C)
    → Concludes err recv rs (conclude err recv rs)
unfolding conclude
conclude-Concludes none zero rs = (refl, refl, λ a b. (refl, refl), λ a b. elim b [ ], λ e h. cc)
conclude-Concludes none (suc recv) rs =
    (refl, refl, λ a b. absurd (omega arith), λ a b. (refl, refl), λ e h. cc)
conclude-Concludes (some x) recv rs = (
  refl,
  refl,
  λ a. cc,
  λ a. cc,
  λ e h. (refl, state_of_error x (record rs.states { state = state_unavailable })),
)

-- What a run of a ping check that asks for `n` pings comes to.
abbrev pub Reports {ℓ} : {C : Type ℓ} → (ℕ → Turn) → ℕ → C → ResultSet C → Type ℓ
Reports turn n check rs' =
    let count = ping_count n in
    let answered = length (durations (run_pings turn count).responses) in
    (r : Result) × (rs'.metrics ≡ r ∷ [])
    × (rs'.check ≡ check)
    × (lookup "count" r ≡ some (new_metric "count" "" metric_number (int (pos count)) ""))
    × (lookup "available" r
        ≡ some (
            new_metric "available" "" metric_float (quotient (pos (100 * answered)) (pos count))
              "PERCENT"))
    × (last_error turn 1 count none ≡ none
        → answered ≡ 0
        → (rs'.available ≡ false)
          × (rs'.states ≡ record { state = state_unavailable; status = "No responses received" }))
    × (last_error turn 1 count none ≡ none
        → 0 < answered
        → (rs'.available ≡ true)
          × (rs'.states ≡ record { state = state_available; status = status_success }))
    × ((e : String)
        → last_error turn 1 count none ≡ some e
        → (rs'.available ≡ false) × (rs'.states.state ≡ state_unavailable))

metrics_found :
    (sent : ℕ) (t : Tally)
    → let r = new_result (ping_metrics sent t) in
      (lookup "count" r ≡ some (new_metric "count" "" metric_number (int (pos sent)) ""))
      × (lookup "available" r
          ≡ some (
              new_metric "available" "" metric_float
                (quotient (pos (100 * t.recv)) (pos sent))
                "PERCENT"))
unfolding new_result ping_metrics lookup insert
metrics_found sent t = (refl, refl)

-- A run of a ping check reports as its count the number of pings it was to send (six where the details
-- say none), also of those that the overall timeout left out, and as available the percentage of them
-- that were answered. Its state is available, with the status success, exactly if a ping was answered
-- and no ping failed otherwise than by a timeout; without an answer and such an error the status is
-- that no responses were received.
pub run_ping-Reports {ℓ} :
    {C : Type ℓ} (turn : ℕ → Turn) (n : ℕ) (check : C)
    → Reports turn n check (run_ping turn n check)
unfolding run_ping new_result_set
run_ping-Reports turn n check =
    let count = ping_count n in
    let p = run_pings turn count in
    let t = tally p.responses no_tally in
    let r = new_result (ping_metrics count t) in
    let done = conclude-Concludes p.ping_err t.recv (new_result_set check (some r)) in
    let received : t.recv ≡ length (durations p.responses) =
      recv-tally p.responses no_tally ∙ omega arith in
    let err = (run_pings-Slots turn count).1 in
    let found = metrics_found count t in
    (
      r,
      done.0,
      done.1,
      found.0,
      found.1
          ∙ ap
              (λ (k : ℕ). some (
                new_metric "available" "" metric_float (quotient (pos (100 * k)) (pos count))
                  "PERCENT"))
              received,
      λ none_left none_answered. done.2 (err ∙ none_left) (received ∙ none_answered),
      λ none_left some_answered. done.3 (err ∙ none_left) (rw received some_answered),
      λ e failed. done.4 e (err ∙ failed),
    )
