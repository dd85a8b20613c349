-- ===== src/Model/Request.antt =====
-- The requests of the admin interface and their validation. `nil` is `none`.
pub mod Valid
use sidecar_agent.Prelude.{
  Bool, true, false, not, ◌&&◌, ◌||◌, Option, none, some, List, [], ◌∷◌, if◌then◌else◌, ◌*◌, ◌^◌,
  ◌≡◌, refl,
}
use sidecar_agent.Prelude.Int.{ℤ, pos, negsuc, ltb_int, leb_int}
use sidecar_agent.Text.{Text, codes, trim_space, is_empty, has_prefix}
use sidecar_agent.Model.Error.{
  Error, required, port_invalid, weight_not_positive, methods_empty, method_invalid, name_required,
  grace_not_positive, Result, ok, err,
}

pub record KernelInfo : Type 0 where
  pub language : Text
  pub version : Text

pub record RegisterRequest : Type 0 where
  pub app_id : Text
  pub app_name : Text
  pub name : Text
  pub namespace : Text
  pub port : ℤ
  pub dns : Text
  pub env : Text
  pub weight : ℤ
  pub protocol : Text
  pub kernel : KernelInfo
  pub methods : List Text
  pub version : Text

-- `strings.TrimSpace(value) == ""`
abbrev pub is_blank : Text → Bool
is_blank s = is_empty (trim_space s)

-- The map `required` of the source, in the order of its text; Go iterates in any order.
unfoldable pub required_fields : RegisterRequest → List (Text × Text)
required_fields r =
    (codes "app_id", r.app_id)
    ∷ (codes "app_name", r.app_name)
    ∷ (codes "name", r.name)
    ∷ (codes "namespace", r.namespace)
    ∷ (codes "dns", r.dns)
    ∷ (codes "env", r.env)
    ∷ (codes "protocol", r.protocol)
    ∷ (codes "version", r.version)
    ∷ (codes "kernel.language", r.kernel.language)
    ∷ (codes "kernel.version", r.kernel.version)
    ∷ []

unfoldable pub check_required : List (Text × Text) → Option Error
check_required [] = none
check_required ((field, value) ∷ rest) =
    let later = check_required rest in if is_blank value then some (required field) else later

-- `p <= 0 || p > 65535`
abbrev pub port_is_bad : ℤ → Bool
port_is_bad p = leb_int p (pos 0) || ltb_int (pos 65535) p

-- `strings.HasPrefix(strings.TrimSpace(method), "/")`
abbrev pub is_path : Text → Bool
is_path method = has_prefix (trim_space method) (codes "/")

unfoldable pub check_methods : List Text → Option Error
check_methods [] = none
check_methods (m ∷ ms) =
    let later = check_methods ms in if not (is_path m) then some (method_invalid m) else later

-- The checks of the port, the weight and the methods.
check_rest : ℤ → ℤ → List Text → Option Error
check_rest port weight methods =
    if port_is_bad port
    then some (port_invalid port)
    else if leb_int weight (pos 0)
    then some weight_not_positive
    else elim methods [ [] ↦ some methods_empty | m ∷ ms ↦ check_methods (m ∷ ms) ]

-- `RegisterRequest.Validate`; `fields` is the map `required` in the order of its iteration.
unfoldable pub validate_in_order : List (Text × Text) → RegisterRequest → Option Error
unfolding check_rest
validate_in_order fields r = elim (check_required fields) [
  | some e ↦ some e
  | none ↦ check_rest r.port r.weight r.methods
]

unfoldable pub validate : RegisterRequest → Option Error
unfolding validate_in_order
validate r = validate_in_order (required_fields r) r

pub record DrainRequest : Type 0 where
  pub name : Text
  pub port : ℤ
  pub grace_period_raw : Text

abbrev pub default_grace : ℤ
default_grace = pos (20 * 10 ^ 9)

-- `time.ParseDuration` is an argument: it rounds fractions in floating point.
module _ (parse_duration : Text → Result ℤ) where
  unfoldable pub check_grace : Result ℤ → Result ℤ
  check_grace (err e) = err e
  check_grace (ok value) = if leb_int value (pos 0) then err grace_not_positive else ok value

  -- `DrainRequest.GracePeriod`, in nanoseconds
  unfoldable pub grace_period : DrainRequest → Result ℤ
  unfolding check_grace
  grace_period r =
      if is_blank r.grace_period_raw
      then ok default_grace
      else check_grace (parse_duration (trim_space r.grace_period_raw))

  -- `DrainRequest.Validate`
  unfoldable pub validate_drain : DrainRequest → Option Error
  unfolding grace_period
  validate_drain r =
      if is_blank r.name
      then some name_required
      else if port_is_bad r.port
      then some (port_invalid r.port)
      else elim (grace_period r) [ ok value ↦ none | err e ↦ some e ]

pub record DeregisterRequest : Type 0 where
  pub name : Text
  pub port : ℤ

-- `DeregisterRequest.Validate`
unfoldable pub validate_deregister : DeregisterRequest → Option Error
validate_deregister r =
    if is_blank r.name
    then some name_required
    else if port_is_bad r.port
    then some (port_invalid r.port)
    else none
