-- ===== src/Config/Configured.antt =====
-- LoadFromFile's loop over the lines, in config/config.go: what it takes, and what that leads to.
use rackspace_monitoring_pol.Base.{
  String, Bool, ◌∙◌, ap, Option, none, some, List, [], ◌∷◌, ◌≡◌, refl, inl, inr, ◌++◌, All, ◌≢◌,
  sym, Bool-cases,
}
use rackspace_monitoring_pol.Base.Lines.{fields}
use rackspace_monitoring_pol.Config.{Config}
use rackspace_monitoring_pol.Config.Parse.{Changed, proceed}
use rackspace_monitoring_pol.Config.Load.{is_skipped, load_line, load_lines}
use rackspace_monitoring_pol.Config.Settings.{
  Settings, later, of_line, of_lines, text_of, list_of, srv_of, url_of, configured, IsLine,
  AreLines,
}
use rackspace_monitoring_pol.Config.Accepted.{Verdict, parse_fields-Verdict, differ_Bool}

All-middle :
    (P : String → Type 0) (xs : List String) (y : String) (ys : List String)
    → All P (xs ++ y ∷ ys)
    → P y
All-middle P [] y ys h = h.0
All-middle P (x ∷ xs) y ys h = All-middle P xs y ys h.1

module _ {Url : Type 0} (parse_request_uri : String → Option Url) where
  load_line-Verdict :
      (line : String) (cfg : Config Url)
      → Verdict parse_request_uri
          (IsLine parse_request_uri line)
          (of_line line)
          cfg
          (load_line parse_request_uri line cfg)
  unfolding load_line configured
  load_line-Verdict line cfg = elim (Bool-cases (is_skipped line)) [
    | inl skip ↦ inl (inl skip, rw skip refl)
    | inr kept ↦ rw kept (elim (parse_fields-Verdict parse_request_uri (fields line) cfg) [
      | inl (good, e) ↦ inl (inr good, e)
      | inr (bad, same, e) ↦
          inr (λ t. elim t [ inl h ↦ absurd (differ_Bool refl h) | inr good ↦ bad good ], same, e)
    ])
  ]

  text_of-later :
      (new old : Option String) (s : String)
      → text_of (elim new [ none ↦ old | some v ↦ some v ]) s ≡ text_of new (text_of old s)
  text_of-later none old s = refl
  text_of-later (some v) old s = refl

  list_of-later :
      (new old : Option String) (s : List String)
      → list_of (elim new [ none ↦ old | some v ↦ some v ]) s ≡ list_of new (list_of old s)
  list_of-later none old s = refl
  list_of-later (some v) old s = refl

  srv_of-later :
      (new old : Option String) (s : Bool)
      → srv_of (elim new [ none ↦ old | some v ↦ some v ]) s ≡ srv_of new (srv_of old s)
  srv_of-later none old s = refl
  srv_of-later (some v) old s = refl

  url_of-later :
      (new old : Option String) (s : Option Url)
      → url_of parse_request_uri (elim new [ none ↦ old | some v ↦ some v ]) s
        ≡ url_of parse_request_uri new (url_of parse_request_uri old s)
  url_of-later none old s = refl
  url_of-later (some v) old s = refl

  configured-later :
      (new old : Settings) (cfg : Config Url)
      → configured parse_request_uri new (configured parse_request_uri old cfg)
        ≡ configured parse_request_uri (later new old) cfg
  unfolding configured
  configured-later new old cfg = λ i. record cfg {
    agent_id = sym (text_of-later (new "monitoring_id") (old "monitoring_id") cfg.agent_id) i;
    token = sym (text_of-later (new "monitoring_token") (old "monitoring_token") cfg.token) i;
    zone_ids =
        sym
          (list_of-later (new "monitoring_private_zones") (old "monitoring_private_zones")
            cfg.zone_ids)
          i;
    addresses =
        sym (list_of-later (new "monitoring_endpoints") (old "monitoring_endpoints") cfg.addresses)
          i;
    use_srv =
        sym (srv_of-later (new "monitoring_endpoints") (old "monitoring_endpoints") cfg.use_srv) i;
    snet_region =
        sym
          (text_of-later (new "monitoring_snet_region") (old "monitoring_snet_region")
            cfg.snet_region)
          i;
    proxy_url =
        sym (url_of-later (new "monitoring_proxy_url") (old "monitoring_proxy_url") cfg.proxy_url)
          i;
    prometheus_uri =
        sym (text_of-later (new "prometheus_uri") (old "prometheus_uri") cfg.prometheus_uri) i;
    statsd_endpoint =
        sym (text_of-later (new "statsd_endpoint") (old "statsd_endpoint") cfg.statsd_endpoint) i;
  }

  -- With the effect of all lines, or of those before one that is not taken.
  pub data Course (cfg : Config Url) (lines : List String) (now : Changed Url) : Type 0 where
    through :
        AreLines parse_request_uri lines
        → now ≡ (configured parse_request_uri (of_lines lines) cfg, none)
        → Course cfg lines now
    stopped :
        (before : List String) (line : String) (rest : List String)
        → lines ≡ before ++ line ∷ rest
        → AreLines parse_request_uri before
        → ¬ IsLine parse_request_uri line
        → now.0 ≡ configured parse_request_uri (of_lines before) cfg
        → now.1 ≢ none
        → Course cfg lines now

  proceed-error :
      (f : Config Url → Changed Url) (now : Changed Url) → now.1 ≢ none → proceed now f ≡ now
  proceed-error f (cfg, none) h = absurd (h refl)
  proceed-error f (cfg, some e) h = refl

  -- Lines are loaded without an error exactly when every line is a comment, blank, or has two fields
  -- at least, of which the second is a valid region where the first asks for a region, and a URL where it
  -- asks for a URL. Of each known name the last value then stands (an endpoints line ends the use of SRV
  -- names too), every other name changes nothing, and what no line sets stays. Otherwise the loading
  -- stops with an error at the first other line, and keeps what the lines before it set.
  pub load_lines-Course :
      (lines : List String) (cfg : Config Url)
      → Course cfg lines (load_lines parse_request_uri lines cfg)
  unfolding load_lines of_lines configured
  load_lines-Course [] cfg = through tt refl
  load_lines-Course (line ∷ lines) cfg = elim (load_line-Verdict line cfg) [
    | inr (bad, same, e) ↦
        rw
          (proceed-error (load_lines parse_request_uri lines) (load_line parse_request_uri line cfg)
            e)
          (stopped [] line lines refl tt bad same e)
    | inl (good, e) ↦
        rw e (elim (load_lines-Course lines (configured parse_request_uri (of_line line) cfg)) [
          | through rest f ↦
              through (good, rest)
                (f ∙ ap (λ c. (c, none)) (configured-later (of_lines lines) (of_line line) cfg))
          | stopped before l rest split good_before bad same f ↦
              stopped (line ∷ before) l rest (ap (line ∷◌) split) (good, good_before) bad
                (same ∙ configured-later (of_lines before) (of_line line) cfg) f
        ])
  ]

  pub load_lines-configured :
      (lines : List String) (cfg : Config Url)
      → AreLines parse_request_uri lines
      → load_lines parse_request_uri lines cfg
        ≡ (configured parse_request_uri (of_lines lines) cfg, none)
  load_lines-configured lines cfg good = elim (load_lines-Course lines cfg) [
    | through all e ↦ e
    | stopped before line rest split fine bad same e ↦
        absurd (bad (All-middle (IsLine parse_request_uri) before line rest (rw (sym split) good)))
  ]
