-- ===== src/Config/Parse.antt =====
-- ParseFields of config/config.go. An error leaves the configuration as far as it was changed.
use rackspace_monitoring_pol.Base.{
  String, Option, none, some, List, [], ◌∷◌, str_eq, if◌then◌else◌, map,
}
use rackspace_monitoring_pol.Base.Text.{trim_space}
use rackspace_monitoring_pol.Base.Lines.{split}
use rackspace_monitoring_pol.Config.{Config}
use rackspace_monitoring_pol.Config.Entries.{
  ValuePtr, text_ptr, texts_ptr, url_ptr, other_ptr, ConfigEntry, is_allowed,
}

pub data ParseError : Type 0 where
  invalid_length : List String → ParseError
  disallowed : String → String → ParseError
  invalid_url : String → ParseError
  unsupported : String → ParseError

abbrev pub Changed : Type 0 → Type 0
Changed Url = Config Url × Option ParseError

-- The rest of the work, unless there is an error.
abbrev pub proceed : {Url : Type 0} → Changed Url → (Config Url → Changed Url) → Changed Url
proceed (cfg, none) f = f cfg
proceed (cfg, some e) f = (cfg, some e)

-- The parts of a list, which a comma separates.
abbrev pub parts_of : String → List String
parts_of v = map trim_space (split 44 v)

abbrev pub first_disallowed : {Url : Type 0} → ConfigEntry Url → List String → Option String
first_disallowed e [] = none
first_disallowed e (v ∷ vs) =
    let rest = first_disallowed e vs in if is_allowed e v then rest else some v

module _ {Url : Type 0} (parse_request_uri : String → Option Url) where
  abbrev pub apply_tweak : ConfigEntry Url → Config Url → Changed Url
  apply_tweak e cfg = elim e.tweak [ none ↦ (cfg, none) | some f ↦ (f cfg, none) ]

  unfoldable pub set_value : ConfigEntry Url → String → ValuePtr Url → Config Url → Changed Url
  unfolding is_allowed
  set_value e v (text_ptr write) cfg =
      if is_allowed e v then apply_tweak e (write v cfg) else (cfg, some (disallowed e.name v))
  set_value e v (texts_ptr write) cfg = elim (first_disallowed e (parts_of v)) [
    | some part ↦ (cfg, some (disallowed e.name part))
    | none ↦ apply_tweak e (write (parts_of v) cfg)
  ]
  set_value e v (url_ptr write) cfg = elim (parse_request_uri v) [
    | none ↦ (cfg, some (invalid_url e.name))
    | some parsed ↦ apply_tweak e (write parsed cfg)
  ]
  set_value e v other_ptr cfg = (cfg, some (unsupported e.name))

  unfoldable pub parse_entries : List (ConfigEntry Url) → String → String → Config Url → Changed Url
  parse_entries [] n v cfg = (cfg, none)
  parse_entries (e ∷ es) n v cfg =
      proceed (if str_eq e.name n then set_value e v e.value_ptr cfg else (cfg, none))
        (parse_entries es n v)

  unfoldable pub parse_fields : List (ConfigEntry Url) → List String → Config Url → Changed Url
  parse_fields entries [] cfg = (cfg, some (invalid_length []))
  parse_fields entries (n ∷ []) cfg = (cfg, some (invalid_length (n ∷ [])))
  parse_fields entries (n ∷ (v ∷ r)) cfg = parse_entries entries n v cfg
