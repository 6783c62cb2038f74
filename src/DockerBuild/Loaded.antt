-- ===== src/DockerBuild/Loaded.antt =====
-- What it takes for `_load_config` of docker/build.py to return.
use public_endorsement_servi.Base.{
  ◌≡◌, inl, inr, some, [], Text, Bool-cases, Outcome, ok, raised, exited, is_value_error, >>=-eq-ok,
}
use public_endorsement_servi.Base.Integers.{pos}
use public_endorsement_servi.Base.Json.{Json}
use public_endorsement_servi.DockerBuild.Schema.{validate_config}
use public_endorsement_servi.DockerBuild.Config.{Values, config_schema}
use public_endorsement_servi.DockerBuild.Conforms.{Conforms, validate_config_iff}
use public_endorsement_servi.DockerBuild.Builder.{Settings, or_exit, apply_config, load_config}

or_exit-ok : (o : Outcome Settings) (s : Settings) → or_exit o ≡ ok s → o ≡ ok s
unfolding or_exit
or_exit-ok (ok t) s h = h
or_exit-ok (exited n) s h = cc
or_exit-ok (raised e) s h = elim (Bool-cases (is_value_error e)) [
  | inl y ↦ let bad : exited (pos 1) ≡ ok s = rw (y, or_exit) at h in cc
  | inr n ↦ let bad : raised e ≡ ok s = rw (n, or_exit) at h in cc
]

-- A configuration that `_load_config` accepts conforms to `CONFIG_SCHEMA`: nothing is taken from a
-- document that does not.
pub load_config-Conforms :
    (number_type : Text → Text) (vals : Values) (config : Json) (settings : Settings)
    → load_config number_type vals (some (ok config)) ≡ ok settings
    → Conforms config_schema config
unfolding load_config apply_config
load_config-Conforms number_type vals config settings h =
    let applied = or_exit-ok (apply_config number_type vals config) settings h in
    let (u, valid, rest) =
      >>=-eq-ok (validate_config number_type config config_schema []) _ applied in
    (validate_config_iff number_type config_schema config []).0 valid
