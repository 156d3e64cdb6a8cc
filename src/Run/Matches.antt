-- ===== src/Run/Matches.antt =====
-- Which patterns crash the matching of check/check_http.go.
use rackspace_monitoring_pol.Base.{
  ◌≡◌, ◌≢◌, refl, sym, ◌∙◌, ◌⊎◌, inl, inr, ◌↔◌, String, Option, none, some, List, [], ◌∷◌, arith,
}
use Prim.Native.String.{◌++◌ as text_append}
use mathlib.Core.Path.{subst}
use rackspace_monitoring_pol.Base.Int.{ℤ}
use rackspace_monitoring_pol.Base.Dict.{Dict}
use rackspace_monitoring_pol.Check.Details.{HttpDetails}
use rackspace_monitoring_pol.Results.{Result, text, metric_string, new_metric, add_metric}
use rackspace_monitoring_pol.Run.{Regexp, Attempt, going, failed, crashed}
use rackspace_monitoring_pol.Run.BodyMatch.{sum-cases}
use rackspace_monitoring_pol.Run.Http.{group, match_pattern, match_each}

pub inr_inj {ℓ κ} : {A : Type ℓ} {B : Type κ} {b c : B} → ◌≡◌ {A = A ⊎ B} (inr b) (inr c) → b ≡ c
inr_inj h = cc

module _ (rx : Regexp) (lower : String → String) (itoa : ℤ → String) (now : ℤ)
    (d : HttpDetails) where
  open rx use {Pattern, compile, groups, find_submatch, find_submatch-length}

  -- Of the patterns in their order, one without a group matches the body, and those before it compile
  -- and have a group or do not match.
  abbrev pub MatchesWithoutGroup : Dict String String → String → Type 0
  MatchesWithoutGroup [] body = ⊥
  MatchesWithoutGroup ((key, pattern) ∷ ms) body =
      (re : Pattern) × (compile pattern ≡ inr re)
      × (((groups re ≡ 0) × (find_submatch re body ≢ none))
          ⊎ (((groups re ≢ 0) ⊎ (find_submatch re body ≡ none)) × MatchesWithoutGroup ms body))

  abbrev pub GroupMatch : String → String → Result → Attempt Result → Type 0
  GroupMatch pattern body r a =
      ((e : String) × (compile pattern ≡ inl e) × (a ≡ failed e r))
      ⊎ ((re : Pattern) × (compile pattern ≡ inr re)
          × (((find_submatch re body ≡ none) × ((r' : Result) × (a ≡ going r')))
              ⊎ ((groups re ≢ 0) × ((r' : Result) × (a ≡ going r')))
              ⊎ ((groups re ≡ 0) × (find_submatch re body ≢ none) × (a ≡ crashed))))

  pub match_group :
      (name unit pattern body : String) (r : Result)
      → GroupMatch pattern body r
          (match_pattern rx lower itoa now d (group rx lower itoa now d) name unit pattern body r)
  unfolding match_pattern
  match_group name unit pattern body r = elim (sum-cases (compile pattern)) [
    | inl (e, bad) ↦ inl (e, bad, rw (match_pattern, bad) refl)
    | inr (re, good) ↦ inr (re, good, found re good (find_submatch re body) refl)
  ]
    where
      found :
          (re : Pattern)
          → compile pattern ≡ inr re
          → (o : Option (List String)) → find_submatch re body ≡ o
          → let a =
              match_pattern rx lower itoa now d
                (group rx lower itoa now d)
                name
                unit
                pattern
                body
                r in
            ((find_submatch re body ≡ none) × ((r' : Result) × (a ≡ going r')))
            ⊎ ((groups re ≢ 0) × ((r' : Result) × (a ≡ going r')))
            ⊎ ((groups re ≡ 0) × (find_submatch re body ≢ none) × (a ≡ crashed))
      found re good none f = inl (
        f,
        (
          add_metric (new_metric name "" metric_string (text "") unit) r,
          rw (match_pattern, good, f) refl,
        ),
      )
      found re good (some []) f = absurd (omega (arith, find_submatch-length re body [] f))
      found re good (some (m ∷ [])) f = inr (
          inr (
            omega (arith, find_submatch-length re body (m ∷ []) f),
            (λ h. cc),
            rw (match_pattern, good, f) refl,
          ))
      found re good (some (m ∷ (g ∷ gs))) f = inr (
          inl (
            (λ h. omega (arith, find_submatch-length re body (m ∷ (g ∷ gs)) f)),
            (
              add_metric (new_metric name "" metric_string (text g) unit) r,
              rw (match_pattern, good, f) refl,
            ),
          ))

  -- A pattern is compiled to one thing, so that what a crash needs of it is decided.
  same_pattern :
      (pattern : String) (re other : Pattern)
      → compile pattern ≡ inr re
      → compile pattern ≡ inr other
      → re ≡ other
  same_pattern pattern re other e f = inr_inj (sym e ∙ f)

  module _ (pattern body : String) (re : Pattern) (good : compile pattern ≡ inr re) where
    abbrev Alternative : Type 0 → Pattern → Type 0
    Alternative Later p =
        ((groups p ≡ 0) × (find_submatch p body ≢ none))
        ⊎ (((groups p ≢ 0) ⊎ (find_submatch p body ≡ none)) × Later)

    of_same :
        (Later : Type 0) (p : Pattern)
        → compile pattern ≡ inr p
        → Alternative Later p
        → Alternative Later re
    of_same Later p e alt = subst (Alternative Later) (sym (same_pattern pattern re p good e)) alt

    later_unmatched : (Later : Type 0) → find_submatch re body ≡ none → Alternative Later re → Later
    later_unmatched Later u (inl (g, m)) = absurd (m u)
    later_unmatched Later u (inr (w, later)) = later

    later_grouped : (Later : Type 0) → groups re ≢ 0 → Alternative Later re → Later
    later_grouped Later g (inl (z, m)) = absurd (g z)
    later_grouped Later g (inr (w, later)) = later

  pub match_each-crashed :
      (ms : Dict String String) (body : String) (r : Result)
      → (match_each rx lower itoa now d ms body r ≡ crashed) ↔ MatchesWithoutGroup ms body
  unfolding match_each
  match_each-crashed [] body r = (λ h. cc, λ h. absurd h)
  match_each-crashed ((key, pattern) ∷ ms) body r =
      elim (match_group (text_append "body_match_" key) "" pattern body r) [
        | inl (e, bad, stage) ↦ rw stage (λ h. cc, λ h. cc (bad, h.1))
        | inr (re, good, inl (unmatched, (r', stage))) ↦
            let rest = match_each-crashed ms body r' in
            rw stage (
              λ h. (re, good, inr (inr unmatched, rest.0 h)),
              λ h. rest.1 (
                  later_unmatched pattern body re good _ unmatched
                    (of_same pattern body re good _ h.0 h.1 h.2)),
            )
        | inr (re, good, inr (inl (some_group, (r', stage)))) ↦
            let rest = match_each-crashed ms body r' in
            rw stage (
              λ h. (re, good, inr (inl some_group, rest.0 h)),
              λ h. rest.1 (
                  later_grouped pattern body re good _ some_group
                    (of_same pattern body re good _ h.0 h.1 h.2)),
            )
        | inr (re, good, inr (inr (no_group, matched, stage))) ↦
            rw stage (λ h. (re, good, inl (no_group, matched)), λ h. refl)
      ]
