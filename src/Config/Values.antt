-- ===== src/Config/Values.antt =====
-- What ParseFields of config/config.go writes for each kind of value.
use rackspace_monitoring_pol.Base.{
  String, true, false, Option, none, some, List, [], ◌∷◌, ◌≡◌, refl,
}
use rackspace_monitoring_pol.Config.{Config}
use rackspace_monitoring_pol.Config.Entries.{ConfigEntry, text_ptr, texts_ptr, url_ptr, is_allowed}
use rackspace_monitoring_pol.Config.Parse.{
  disallowed, invalid_url, parts_of, first_disallowed, apply_tweak, set_value,
}

module _ {Url : Type 0} (parse_request_uri : String → Option Url) where
  first_disallowed-free :
      (e : ConfigEntry Url) (vs : List String) → e.allowed ≡ [] → first_disallowed e vs ≡ none
  unfolding is_allowed
  first_disallowed-free e [] h = refl
  first_disallowed-free e (v ∷ vs) h = rw h (first_disallowed-free e vs h)

  pub set_value-texts :
      (e : ConfigEntry Url) (v : String) (write : List String → Config Url → Config Url)
      (cfg : Config Url)
      → e.allowed ≡ []
      → set_value parse_request_uri e v (texts_ptr write) cfg
        ≡ apply_tweak parse_request_uri e (write (parts_of v) cfg)
  unfolding set_value
  set_value-texts e v write cfg h = rw (set_value, first_disallowed-free e (parts_of v) h) refl

  pub set_value-text :
      (e : ConfigEntry Url) (v : String) (write : String → Config Url → Config Url)
      (cfg : Config Url)
      → is_allowed e v ≡ true
      → set_value parse_request_uri e v (text_ptr write) cfg
        ≡ apply_tweak parse_request_uri e (write v cfg)
  unfolding set_value
  set_value-text e v write cfg h = rw h refl

  pub set_value-disallowed :
      (e : ConfigEntry Url) (v : String) (write : String → Config Url → Config Url)
      (cfg : Config Url)
      → is_allowed e v ≡ false
      → set_value parse_request_uri e v (text_ptr write) cfg ≡ (cfg, some (disallowed e.name v))
  unfolding set_value
  set_value-disallowed e v write cfg h = rw h refl

  pub set_value-url :
      (e : ConfigEntry Url) (v : String) (write : Url → Config Url → Config Url) (cfg : Config Url)
      (u : Url)
      → parse_request_uri v ≡ some u
      → set_value parse_request_uri e v (url_ptr write) cfg
        ≡ apply_tweak parse_request_uri e (write u cfg)
  unfolding set_value
  set_value-url e v write cfg u h = rw (set_value, h) refl

  pub set_value-invalid_url :
      (e : ConfigEntry Url) (v : String) (write : Url → Config Url → Config Url) (cfg : Config Url)
      → parse_request_uri v ≡ none
      → set_value parse_request_uri e v (url_ptr write) cfg ≡ (cfg, some (invalid_url e.name))
  unfolding set_value
  set_value-invalid_url e v write cfg h = rw (set_value, h) refl
