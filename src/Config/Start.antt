-- ===== src/Config/Start.antt =====
-- How main's configuration comes about: NewConfig, LoadFromFile and Validate of config/config.go.
use Prim.Native.String.{◌++◌ as text_append}
use rackspace_monitoring_pol.Base.{
  arith, String, ◌==◌, Bool, ◌∙◌, ap, true, false, Option, none, some, List, [], ◌∷◌, ◌≡◌, ◌≢◌,
  refl, ◌↔◌, ◌⊎◌, inl, inr, sym, Bool-cases, if◌then◌else◌, str_eq, eq_iff, All, map,
}
use rackspace_monitoring_pol.Base.Text.{trim_space}
use rackspace_monitoring_pol.Base.Lines.{fields, scan_lines}
use rackspace_monitoring_pol.Base.Lines.Parts.{fields-All, split_by-cons}
use rackspace_monitoring_pol.Protocol.Messages.{Feature}
use rackspace_monitoring_pol.Config.{
  Config, no_zones, no_token, Environment, new_config, validate, default_prod_srv_endpoints,
  default_staging_srv_endpoints,
}
use rackspace_monitoring_pol.Config.Parse.{parts_of}
use rackspace_monitoring_pol.Config.Load.{LoadError, is_skipped, load_from_file, post_process}
use rackspace_monitoring_pol.Config.Settings.{
  Settings, of_fields, of_line, of_lines, text_of, list_of, srv_of, configured, AreLines,
}
use rackspace_monitoring_pol.Config.Accepted.{some≢none}
use rackspace_monitoring_pol.Config.Configured.{load_lines-configured}

-- No setting has an empty value.
Full : Option String → Type 0
Full none = Unit
Full (some v) = v ≢ ""

of_line-Full : (line name : String) → Full (of_line line name)
unfolding Full
of_line-Full line name = elim (Bool-cases (is_skipped line)) [
  | inl skip ↦ rw skip tt
  | inr kept ↦ rw kept (of_fields-Full (fields line) (fields-All line))
]
  where
    of_fields-Full : (fs : List String) → All (λ f. f ≢ "") fs → Full (of_fields fs name)
    of_fields-Full [] h = tt
    of_fields-Full (n ∷ []) h = tt
    of_fields-Full (n ∷ (v ∷ r)) h = elim (Bool-cases (str_eq name n)) [
      | inl e ↦ rw e h.1.0
      | inr e ↦ rw e tt
    ]

of_lines-Full : (lines : List String) (name : String) → Full (of_lines lines name)
unfolding of_lines Full
of_lines-Full [] name = tt
of_lines-Full (line ∷ lines) name =
    later-Full (of_lines lines name) (of_line line name) (of_lines-Full lines name)
      (of_line-Full line name)
  where
    later-Full :
        (new old : Option String)
        → Full new
        → Full old
        → Full (elim new [ none ↦ old | some v ↦ some v ])
    later-Full none old h k = k
    later-Full (some v) old h k = h

-- The service names that the region gives, in the environment.
abbrev pub srv_names : Bool → Option String → List String
srv_names true none = default_staging_srv_endpoints
srv_names false none = default_prod_srv_endpoints
srv_names true (some r) =
    text_append "_monitoringagent._tcp.snet-"
      (text_append r "-region0.stage.monitoring.api.rackspacecloud.com")
    ∷ text_append "_monitoringagent._tcp.snet-"
        (text_append r "-region1.stage.monitoring.api.rackspacecloud.com")
    ∷ text_append "_monitoringagent._tcp.snet-"
        (text_append r "-region2.stage.monitoring.api.rackspacecloud.com")
    ∷ []
srv_names false (some r) =
    text_append "_monitoringagent._tcp.snet-"
      (text_append r "-region0.prod.monitoring.api.rackspacecloud.com")
    ∷ text_append "_monitoringagent._tcp.snet-"
        (text_append r "-region1.prod.monitoring.api.rackspacecloud.com")
    ∷ text_append "_monitoringagent._tcp.snet-"
        (text_append r "-region2.prod.monitoring.api.rackspacecloud.com")
    ∷ []

module _ {Url : Type 0} where
  post_process-queries :
      (cfg : Config Url) (d : Option String)
      → Full d
      → cfg.snet_region ≡ text_of d ""
      → cfg.srv_queries ≡ srv_names cfg.use_staging none
      → (post_process cfg).srv_queries ≡ srv_names cfg.use_staging d
  unfolding post_process Full
  post_process-queries cfg none full e q = rw (post_process, e) q
  post_process-queries cfg (some r) full e q = elim (Bool-cases (str_eq r "")) [
    | inl empty ↦ absurd (full ((eq_iff r "").0 empty))
    | inr other ↦ elim (Bool-cases cfg.use_staging) [
      | inl stage ↦ rw (post_process, e, other, stage) refl
      | inr prod ↦ rw (post_process, e, other, prod) refl
    ]
  ]

  post_process-use_srv : (cfg : Config Url) → (post_process cfg).use_srv ≡ cfg.use_srv
  unfolding post_process
  post_process-use_srv cfg = elim (Bool-cases (str_eq cfg.snet_region "")) [
    | inl e ↦ rw (post_process, e) refl
    | inr e ↦ rw (post_process, e) refl
  ]

  post_process-validate : (cfg : Config Url) → validate (post_process cfg) ≡ validate cfg
  unfolding post_process validate
  post_process-validate cfg = elim (Bool-cases (str_eq cfg.snet_region "")) [
    | inl e ↦ rw (post_process, e) refl
    | inr e ↦ rw (post_process, e) refl
  ]

  validate_iff :
      (cfg : Config Url) → (validate cfg ≡ none) ↔ ((cfg.zone_ids ≢ []) × (cfg.token ≢ ""))
  unfolding validate
  validate_iff cfg = checks cfg.zone_ids cfg.token
    where
      checks :
          (zs : List String) (t : String)
          → ((elim zs [ [] ↦ some no_zones | z ∷ zs ↦ if str_eq t "" then some no_token else none ])
              ≡ none)
            ↔ ((zs ≢ []) × (t ≢ ""))
      checks [] t = (λ h. some≢none h, λ h. absurd (h.0 refl))
      checks (z ∷ zs) t = ground (arith, eq_iff t "")

cons≢[] : {s : String} {ss : List String} → s ∷ ss ≡ [] → ⊥
cons≢[] h = cc

by_environment :
    (staging : Bool)
    → (if staging then default_staging_srv_endpoints else default_prod_srv_endpoints)
      ≡ srv_names staging none
by_environment true = refl
by_environment false = refl

parts_of-filled : (v : String) → parts_of v ≢ []
parts_of-filled v h =
    let (part, parts, e) = split_by-cons (λ c. c == 44) v in
    cons≢[] (sym (ap (map trim_space) e) ∙ h)

zones_iff : (d : Option String) → (list_of d [] ≢ []) ↔ (d ≢ none)
zones_iff none = (λ h k. h refl, λ h k. h refl)
zones_iff (some v) = (λ h k. some≢none k, λ h. parts_of-filled v)

token_iff : (d : Option String) (t : String) → Full d → (text_of d t ≢ "") ↔ ((d ≢ none) ⊎ (t ≢ ""))
unfolding Full
token_iff none t full = (λ h. inr h, λ h. elim h [ inl k ↦ absurd (k refl) | inr k ↦ k ])
token_iff (some v) t full = (λ h. inl (λ k. some≢none k), λ h. full)

-- What a loaded configuration is like, by the settings of its file.
abbrev pub IsReady :
    {Url : Type 0} → Environment → Bool → Settings → Config Url × Option LoadError → Type 0
IsReady env staging set (cfg, err) =
    (err ≡ none)
    × ((validate cfg ≡ none) ↔ (
        (set "monitoring_private_zones" ≢ none)
        × ((set "monitoring_token" ≢ none) ⊎ (env.agent_token ≢ ""))))
    × (cfg.srv_queries ≡ srv_names staging (set "monitoring_snet_region"))
    × (cfg.use_srv ≡ srv_of (set "monitoring_endpoints") true)

module _ {Url : Type 0} (parse_request_uri : String → Option Url) (env : Environment)
    (guid : String) (staging : Bool) (features : Option (List Feature)) where
  post_process-IsReady :
      (d : Settings)
      → ((name : String) → Full (d name))
      → IsReady env staging d (
        post_process (configured parse_request_uri d (new_config env guid staging features)),
        none,
      )
  unfolding configured new_config
  post_process-IsReady d full =
      let cfg = configured parse_request_uri d (new_config env guid staging features) in
      (
        refl,
        (let (iff_to, iff_from) = validate_iff cfg in
            let (zones_to, zones_from) = zones_iff (d "monitoring_private_zones") in
            let (token_to, token_from) =
              token_iff (d "monitoring_token") env.agent_token (full "monitoring_token") in
            (
              λ h.
                  let (z, t) = iff_to (sym (post_process-validate cfg) ∙ h) in
                  (zones_to z, token_to t),
              λ h. post_process-validate cfg ∙ iff_from (zones_from h.0, token_from h.1),
            )),
        post_process-queries cfg (d "monitoring_snet_region") (full "monitoring_snet_region") refl
            (by_environment staging),
        post_process-use_srv cfg,
      )

  -- A text whose lines are taken, loaded into a new configuration, gives one that Validate passes
  -- exactly when some line sets the private zones, and a line or the environment the token. It looks up
  -- the service names of its region, if a line sets one, and of production or staging as it was told,
  -- and uses them unless a line sets endpoints.
  pub load_from_file-IsReady :
      (text : String)
      → AreLines parse_request_uri (scan_lines text)
      → IsReady env staging
          (of_lines (scan_lines text))
          (load_from_file parse_request_uri (some text) (new_config env guid staging features))
  unfolding load_from_file
  load_from_file-IsReady text h =
      rw
        (
          load_from_file,
          load_lines-configured parse_request_uri (scan_lines text)
              (new_config env guid staging features) h,
        )
        (post_process-IsReady (of_lines (scan_lines text)) (of_lines-Full (scan_lines text)))
