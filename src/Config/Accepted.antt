-- ===== src/Config/Accepted.antt =====
-- What ParseFields of config/config.go does with one line's fields.
use rackspace_monitoring_pol.Base.{
  String, Bool, ◌∙◌, ap, true, false, Option, none, some, List, [], ◌∷◌, ◌≡◌, refl, ◌≢◌, ◌⊎◌, inl,
  inr, str_eq, eq_iff, sym, Bool-cases, Option-cases,
}
use rackspace_monitoring_pol.Base.Keys.{contains}
use rackspace_monitoring_pol.Config.{Config}
use rackspace_monitoring_pol.Config.Entries.{
  define_config_entries, valid_snet_regions, is_allowed, id_entry, token_entry, zones_entry,
  endpoints_entry, region_entry, proxy_entry, prometheus_entry, statsd_entry,
}
use rackspace_monitoring_pol.Config.Parse.{
  ParseError, Changed, proceed, parse_entries, parse_fields,
}
use rackspace_monitoring_pol.Config.Settings.{
  Settings, configured, one, of_fields, Admissible, AreFields,
}
use rackspace_monitoring_pol.Config.Values.{
  set_value-texts, set_value-text, set_value-disallowed, set_value-url, set_value-invalid_url,
}

-- A name is that of an entry, or of none.
data Named : String → Type 0 where
  id : Named "monitoring_id"
  token : Named "monitoring_token"
  zones : Named "monitoring_private_zones"
  endpoints : Named "monitoring_endpoints"
  region : Named "monitoring_snet_region"
  proxy : Named "monitoring_proxy_url"
  prometheus : Named "prometheus_uri"
  statsd : Named "statsd_endpoint"
  unknown :
      {n : String}
      → str_eq "monitoring_id" n ≡ false
      → str_eq "monitoring_token" n ≡ false
      → str_eq "monitoring_private_zones" n ≡ false
      → str_eq "monitoring_endpoints" n ≡ false
      → str_eq "monitoring_snet_region" n ≡ false
      → str_eq "monitoring_proxy_url" n ≡ false
      → str_eq "prometheus_uri" n ≡ false
      → str_eq "statsd_endpoint" n ≡ false
      → Named n

test : (k n : String) → Named k → (str_eq k n ≡ false → Named n) → Named n
test k n same other = elim (Bool-cases (str_eq k n)) [
  | inl e ↦ rw (sym ((eq_iff k n).0 e)) same
  | inr e ↦ other e
]

named : (n : String) → Named n
named n = test "monitoring_id" n id (λ a. test "monitoring_token" n token (λ b.
    test "monitoring_private_zones" n zones (λ c. test "monitoring_endpoints" n endpoints (λ d.
      test "monitoring_snet_region" n region (λ e. test "monitoring_proxy_url" n proxy (λ f.
        test "prometheus_uri" n prometheus
          (λ g. test "statsd_endpoint" n statsd (λ h. unknown a b c d e f g h))))))))

pub differ {ℓ} : {X : Type ℓ} (a b : String) → str_eq a b ≡ false → a ≡ b → X
differ a b e h = cc ((eq_iff a b).1 h)

pub differ_Bool {ℓ} : {X : Type ℓ} {b : Bool} → b ≡ false → b ≡ true → X
differ_Bool e h = cc

pub some≢none {ℓ κ} : {X : Type κ} {A : Type ℓ} {a : A} → some a ≡ none → X
some≢none h = cc

module _ {Url : Type 0} (parse_request_uri : String → Option Url) where
  -- The fields are taken, with their setting as the effect, or refused.
  abbrev pub Verdict : Type 0 → Settings → Config Url → Changed Url → Type 0
  Verdict Taken d cfg now =
      (Taken × (now ≡ (configured parse_request_uri d cfg, none)))
      ⊎ (¬ Taken × (now.0 ≡ cfg) × (now.1 ≢ none))

  pub free :
      (n v : String)
      → str_eq "monitoring_snet_region" n ≡ false
      → str_eq "monitoring_proxy_url" n ≡ false
      → Admissible parse_request_uri n v
  free n v e f = (
    λ h. differ "monitoring_snet_region" n e (sym h),
    λ h. differ "monitoring_proxy_url" n f (sym h),
  )

  abbrev last_of : Changed Url → Changed Url
  last_of now = proceed now (λ cfg. (cfg, none))

  fails :
      {Taken : Type 0} {now : Changed Url} {cfg : Config Url} {e : ParseError}
      → ¬ Taken
      → now ≡ (cfg, some e)
      → ¬ Taken × (now.0 ≡ cfg) × (now.1 ≢ none)
  fails bad h = (bad, ap (λ r. r.0) h, λ k. some≢none (sym (ap (λ r. r.1) h) ∙ k))

  parse_entries-unknown :
      (n v : String) (cfg : Config Url)
      → str_eq "monitoring_id" n ≡ false
      → str_eq "monitoring_token" n ≡ false
      → str_eq "monitoring_private_zones" n ≡ false
      → str_eq "monitoring_endpoints" n ≡ false
      → str_eq "monitoring_snet_region" n ≡ false
      → str_eq "monitoring_proxy_url" n ≡ false
      → str_eq "prometheus_uri" n ≡ false
      → str_eq "statsd_endpoint" n ≡ false
      → parse_entries parse_request_uri define_config_entries n v cfg
        ≡ (configured parse_request_uri (one n v) cfg, none)
  unfolding parse_entries configured
  parse_entries-unknown n v cfg a b c d e f g h = rw (a, b, c, d, e, f, g, h) refl

  parse_entries-Verdict :
      (n v : String) (cfg : Config Url)
      → Named n
      → Verdict
          (Admissible parse_request_uri n v)
          (one n v)
          cfg
          (parse_entries parse_request_uri define_config_entries n v cfg)
  unfolding parse_entries configured is_allowed
  parse_entries-Verdict n v cfg id = inl (
    free "monitoring_id" v refl refl,
    ap last_of (set_value-text parse_request_uri id_entry v _ cfg refl),
  )
  parse_entries-Verdict n v cfg token = inl (
    free "monitoring_token" v refl refl,
    ap last_of (set_value-text parse_request_uri token_entry v _ cfg refl),
  )
  parse_entries-Verdict n v cfg zones = inl (
    free "monitoring_private_zones" v refl refl,
    ap last_of (set_value-texts parse_request_uri zones_entry v _ cfg refl),
  )
  parse_entries-Verdict n v cfg endpoints = inl (
    free "monitoring_endpoints" v refl refl,
    ap last_of (set_value-texts parse_request_uri endpoints_entry v _ cfg refl),
  )
  parse_entries-Verdict n v cfg region = elim (Bool-cases (contains valid_snet_regions v)) [
    | inl is_in ↦ inl (
      (λ h. is_in, λ h. differ "monitoring_proxy_url" "monitoring_snet_region" refl (sym h)),
      ap last_of (set_value-text parse_request_uri region_entry v _ cfg is_in),
    )
    | inr out ↦ inr (
        fails (λ t. differ_Bool out (t.0 refl))
          (ap last_of (set_value-disallowed parse_request_uri region_entry v _ cfg out)))
  ]
  parse_entries-Verdict n v cfg proxy = elim (Option-cases (parse_request_uri v)) [
    | inl bad ↦ inr (
        fails (λ t. t.1 refl bad)
          (ap last_of (set_value-invalid_url parse_request_uri proxy_entry v _ cfg bad)))
    | inr (u, good) ↦ inl (
      (
        λ h. differ "monitoring_snet_region" "monitoring_proxy_url" refl (sym h),
        λ h k. some≢none (sym good ∙ k),
      ),
      ap last_of (set_value-url parse_request_uri proxy_entry v _ cfg u good)
          ∙ ap (λ p. (record cfg { proxy_url = p }, none)) (sym good),
    )
  ]
  parse_entries-Verdict n v cfg prometheus = inl (
    free "prometheus_uri" v refl refl,
    ap last_of (set_value-text parse_request_uri prometheus_entry v _ cfg refl),
  )
  parse_entries-Verdict n v cfg statsd = inl (
    free "statsd_endpoint" v refl refl,
    ap last_of (set_value-text parse_request_uri statsd_entry v _ cfg refl),
  )
  parse_entries-Verdict n v cfg (unknown a b c d e f g h) =
      inl (free n v e f, parse_entries-unknown n v cfg a b c d e f g h)

  pub parse_fields-Verdict :
      (fs : List String) (cfg : Config Url)
      → Verdict
          (AreFields parse_request_uri fs)
          (of_fields fs)
          cfg
          (parse_fields parse_request_uri define_config_entries fs cfg)
  unfolding parse_fields
  parse_fields-Verdict [] cfg = inr (λ t. t, refl, λ h. some≢none h)
  parse_fields-Verdict (n ∷ []) cfg = inr (λ t. t, refl, λ h. some≢none h)
  parse_fields-Verdict (n ∷ (v ∷ r)) cfg = parse_entries-Verdict n v cfg (named n)
