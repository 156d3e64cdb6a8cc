-- ===== src/Run.antt =====
-- How a check that connects to its target comes to its set of results: check/check_tcp.go,
-- check/check_http.go and AddTLSMetrics of check/check.go. What the network, the clock and the packages
-- regexp and x509 give is an argument.
pub mod Tls
pub mod Tcp
pub mod Http
pub mod BodyMatch
pub mod Matches
pub mod Groups
pub mod Plugin
pub mod Printed
pub mod Said
pub mod Reported
pub mod Outcomes
use rackspace_monitoring_pol.Base.{ℕ, suc, ◌+◌, ◌≡◌, String, Option, none, some, List, ◌⊎◌, length}
use rackspace_monitoring_pol.Base.Outcome.{Outcome, ok, panic}
use rackspace_monitoring_pol.Results.{
  Result, ResultSet, new_result_set, set_state_available, set_state_unavailable, set_status,
  set_status_from_error, change_states,
}

-- What the checks use of package regexp. A match is the text that matched and that of each group.
pub record Regexp : Type 1 where
  pub Pattern : Type 0
  pub compile : String → String ⊎ Pattern
  pub groups : Pattern → ℕ
  pub find_submatch : Pattern → String → Option (List String)
  pub find_submatch-length :
      (re : Pattern) (s : String) (m : List String)
      → find_submatch re s ≡ some m
      → length m ≡ suc (groups re)

-- A stage of a run: it goes on with a value, it ends the run with an error or with a status for the
-- metrics so far, or it crashes the poller.
pub data Attempt {ℓ} (A : Type ℓ) : Type ℓ where
  going : A → Attempt A
  failed : String → Result → Attempt A
  refused : String → Result → Attempt A
  crashed : Attempt A

infixl 5 ◌>>=◌
abbrev pub ◌>>=◌ {ℓ κ} : {A : Type ℓ} {B : Type κ} → Attempt A → (A → Attempt B) → Attempt B
going a >>= f = f a
failed e r >>= f = failed e r
refused e r >>= f = refused e r
crashed >>= f = crashed

-- The set of results of a run: the result was put into it at the start, and holds what was added.
module _ {ℓ} {C : Type ℓ} where
  abbrev pub unavailable : C → Result → ResultSet C
  unavailable check r = set_state_unavailable (new_result_set check (some r))

  abbrev pub complete : C → Attempt (Result × String) → Outcome (ResultSet C)
  complete check (going (r, status)) =
      ok (change_states (set_status status) (set_state_available (new_result_set check (some r))))
  complete check (failed e r) = ok (change_states (set_status_from_error e) (unavailable check r))
  complete check (refused s r) = ok (change_states (set_status s) (unavailable check r))
  complete check crashed = panic
