-- ===== src/Run/Tls.antt =====
-- AddTLSMetrics of check/check.go: the metrics of the certificate that the far end showed.
use Prim.Native.String.{◌++◌ as text_append}
use rackspace_monitoring_pol.Base.{
  ℕ, String, Bool, true, false, Option, none, some, List, [], ◌∷◌, ◌++◌, ◌==◌, if◌then◌else◌,
}
use rackspace_monitoring_pol.Base.Int.{ℤ, ◌-ℤ◌}
use rackspace_monitoring_pol.Base.Words.{wrap64}
use rackspace_monitoring_pol.Results.{
  Value, text, int, Metric, metric_string, metric_number, new_metric, Result, add_metrics,
}

pub data PublicKey : Type 0 where
  rsa : ℕ → PublicKey
  dsa : ℕ → PublicKey
  ecdsa : ℕ → PublicKey
  other_key : PublicKey

-- `issuer` and `subject` are none where GetDNFromCert gives an error.
pub record Certificate : Type 0 where
  pub key : PublicKey
  pub signature_algorithm : String
  pub issuer : Option String
  pub subject : Option String
  pub dns_names : List String
  pub not_before : ℤ
  pub not_after : ℤ

-- `verified` is the error of the verification of the first certificate against the others.
pub record ConnectionState : Type 0 where
  pub peer_certificates : List Certificate
  pub verified : Option String
  pub version : ℕ
  pub cipher_suite : ℕ

unfoldable pub version_name : ℕ → String
version_name v =
    if v == 0x0300
    then "ssl3"
    else if v == 0x0301
    then "tls1.0"
    else if v == 0x0302
    then "tls1.1"
    else if v == 0x0303
    then "tls1.2"
    else "-"

-- The constants of package crypto/tls.
abbrev pub cipher_suites : List (ℕ × String)
cipher_suites =
    (0x0005, "TLS_RSA_WITH_RC4_128_SHA")
    ∷ (0x000a, "TLS_RSA_WITH_3DES_EDE_CBC_SHA")
    ∷ (0x002f, "TLS_RSA_WITH_AES_128_CBC_SHA")
    ∷ (0x0035, "TLS_RSA_WITH_AES_256_CBC_SHA")
    ∷ (0x009c, "TLS_RSA_WITH_AES_128_GCM_SHA256")
    ∷ (0x009d, "TLS_RSA_WITH_AES_256_GCM_SHA384")
    ∷ (0xc007, "TLS_ECDHE_ECDSA_WITH_RC4_128_SHA")
    ∷ (0xc009, "TLS_ECDHE_ECDSA_WITH_AES_128_CBC_SHA")
    ∷ (0xc00a, "TLS_ECDHE_ECDSA_WITH_AES_256_CBC_SHA")
    ∷ (0xc011, "TLS_ECDHE_RSA_WITH_RC4_128_SHA")
    ∷ (0xc012, "TLS_ECDHE_RSA_WITH_3DES_EDE_CBC_SHA")
    ∷ (0xc013, "TLS_ECDHE_RSA_WITH_AES_128_CBC_SHA")
    ∷ (0xc014, "TLS_ECDHE_RSA_WITH_AES_256_CBC_SHA")
    ∷ (0xc02f, "TLS_ECDHE_RSA_WITH_AES_128_GCM_SHA256")
    ∷ (0xc02b, "TLS_ECDHE_ECDSA_WITH_AES_128_GCM_SHA256")
    ∷ (0xc030, "TLS_ECDHE_RSA_WITH_AES_256_GCM_SHA384")
    ∷ (0xc02c, "TLS_ECDHE_ECDSA_WITH_AES_256_GCM_SHA384")
    ∷ []

unfoldable pub name_in : ℕ → List (ℕ × String) → String
name_in n [] = "-"
name_in n ((k, name) ∷ suites) = if n == k then name else name_in n suites

-- strings.Join(names, ", ")
unfoldable pub join_names : List String → String
join_names [] = ""
join_names (n ∷ []) = n
join_names (n ∷ (m ∷ ns)) = text_append n (text_append ", " (join_names (m ∷ ns)))

abbrev pub text_metric : String → String → Metric
text_metric name s = new_metric name "" metric_string (text s) ""

abbrev pub number_metric : String → Value → Metric
number_metric name v = new_metric name "" metric_number v ""

unfoldable pub error_metrics : Option String → List Metric
error_metrics none = []
error_metrics (some e) = text_metric "cert_error" e ∷ []

-- The bits of an unknown key are the text 0.
unfoldable pub key_metrics : PublicKey → List Metric
key_metrics (rsa n) = number_metric "cert_bits" (int (ℤ.pos n)) ∷ text_metric "cert_type" "rsa" ∷ []
key_metrics (dsa n) = number_metric "cert_bits" (int (ℤ.pos n)) ∷ text_metric "cert_type" "dsa" ∷ []
key_metrics (ecdsa n) =
    number_metric "cert_bits" (int (ℤ.pos n)) ∷ text_metric "cert_type" "ecdsa" ∷ []
key_metrics other_key = number_metric "cert_bits" (text "0") ∷ text_metric "cert_type" "-" ∷ []

unfoldable pub name_metrics : String → Option String → List Metric
name_metrics name none = []
name_metrics name (some s) = text_metric name s ∷ []

-- `lower` is strings.ToLower, `now` the poller's clock in seconds.
module _ (lower : String → String) (now : ℤ) where
  unfoldable pub certificate_metrics : ConnectionState → Certificate → List Metric
  unfolding error_metrics key_metrics version_name name_in name_metrics join_names wrap64 ◌-ℤ◌
  certificate_metrics s c =
      error_metrics s.verified
      ++ key_metrics c.key
      ++ (text_metric "cert_sig_algo" (lower c.signature_algorithm)
          ∷ text_metric "ssl_session_version" (version_name s.version)
          ∷ text_metric "ssl_session_cipher" (name_in s.cipher_suite cipher_suites)
          ∷ [])
      ++ name_metrics "cert_issuer" c.issuer
      ++ name_metrics "cert_subject" c.subject
      ++ (text_metric "cert_subject_alternate_names" (join_names c.dns_names)
          ∷ number_metric "cert_start" (int c.not_before)
          ∷ number_metric "cert_end" (int c.not_after)
          ∷ number_metric "cert_end_in" (int (wrap64 (c.not_after -ℤ now)))
          ∷ [])

  -- The metrics with those of the certificate, and whether it was verified.
  unfoldable pub add_tls_metrics : ConnectionState → Result → Result × Bool
  unfolding certificate_metrics add_metrics
  add_tls_metrics s r = elim s.peer_certificates [
    | [] ↦ (r, false)
    | c ∷ cs ↦
        (add_metrics (certificate_metrics s c) r, elim s.verified [ none ↦ true | some e ↦ false ])
  ]
