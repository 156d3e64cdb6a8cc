-- ===== src/Examples/Runs.antt =====
-- The theorems on check/checkresult.go, check/check_tcp.go and check/check_http.go, at small inputs.
use mathlib.Core.Option.{some_inj}
use rackspace_monitoring_pol.Base.{
  ℕ, suc, ◌≡◌, refl, ap, sym, ◌∙◌, zero, String, false, none, some, List, [], ◌∷◌, inl, inr, ◌↔◌,
  length, replicate, str_eq, if◌then◌else◌, arith,
}
use rackspace_monitoring_pol.Base.Int.{ℤ, pos}
use rackspace_monitoring_pol.Base.Dict.{string_eq}
use rackspace_monitoring_pol.Base.Outcome.{panic}
use rackspace_monitoring_pol.Check.Details.{TcpDetails, HttpDetails}
use rackspace_monitoring_pol.Results.{States, Result}
use rackspace_monitoring_pol.Run.{Regexp, going}
use rackspace_monitoring_pol.Run.Tcp.{TcpInput, run_tcp}
use rackspace_monitoring_pol.Run.BodyMatch.{before_body, CrashesAtBody, run_tcp-panic}
use rackspace_monitoring_pol.Run.Http.{HttpInput}

abbrev check_id : String
check_id = "ch0"

abbrev fresh_states : States
fresh_states = record { state = "unavailable"; status = "unknown error" }

-- A pattern is its number of groups, each of which matches the whole text; "(" does not compile.
length-all_groups :
    (n : ℕ) (s : String) (m : List String) → some (s ∷ replicate n s) ≡ some m → length m ≡ suc n
length-all_groups n s m e = ap length (sym (some_inj.0 e)) ∙ ap suc (size n)
  where
    size : (k : ℕ) → length (replicate k s) ≡ k
    size zero = refl
    size (suc k) = omega (arith, size k)

abbrev greedy : Regexp
greedy = record {
  Pattern = ℕ;
  compile = λ s. if str_eq s "(" then inl "missing )" else inr 0;
  groups = λ n. n;
  find_submatch = λ n s. some (s ∷ replicate n s);
  find_submatch-length = length-all_groups;
}

abbrev tcp_details : TcpDetails
tcp_details = record {
  banner_match = "";
  body_match = "(";
  port = 22;
  send_body = "";
  use_ssl = false;
}

abbrev tcp_input : TcpInput
tcp_input = record {
  started = pos 0;
  dial_error = none;
  connected = pos 1;
  write_error = none;
  line = inl "EOF";
  line_read = pos 2;
  body = inr "SSH-2.0";
  body_read = pos 3;
  ended = pos 4;
  tls = record { peer_certificates = []; verified = none; version = 0; cipher_suite = 0 };
}

abbrev lower : String → String
lower s = s

run_tcp-panic_example :
    ((run_tcp greedy lower (pos 0) tcp_details tcp_input check_id ≡ panic) ↔ (
      ((r : Result) × (before_body greedy lower (pos 0) tcp_details tcp_input ≡ going r))
      × CrashesAtBody greedy lower (pos 0) tcp_details tcp_input))
    × ((a b : String)
        → run_tcp greedy lower (pos 0) tcp_details (record tcp_input { body = inr a }) check_id
          ≡ run_tcp greedy lower (pos 0) tcp_details (record tcp_input { body = inr b }) check_id)
run_tcp-panic_example = run_tcp-panic greedy lower (pos 0) tcp_details tcp_input check_id

abbrev http_details : HttpDetails
http_details = record {
  auth_password = "";
  auth_user = "";
  body = "";
  body_matches = ("title", "poller") ∷ [];
  follow_redirects = false;
  headers = [];
  include_body = false;
  method = "GET";
  url = "http://example.org";
}

abbrev http_input : HttpInput
http_input = record {
  request_error = none;
  traced = [];
  response = some (record { status_code = 200; body = inr "poller"; tls = none });
  started = pos 0;
  ended = pos 8;
}

abbrev printed_int : ℤ → String
printed_int z = "0"
