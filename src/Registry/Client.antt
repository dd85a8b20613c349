-- ===== src/Registry/Client.antt =====
-- The parts of a client that do not change, and the names that it forms.
use sidecar_agent.Prelude.{
  ℕ, ◌+◌, ◌-◌, ◌/◌, ◌%◌, ◌^◌, Bool, true, false, ◌&&◌, not, Option, none, some, List, [], ◌∷◌, ◌++◌,
  take, drop, ltb, if◌then◌else◌,
}
use Prim.Native.Nat.{bit_and, bit_or}
use sidecar_agent.Prelude.Int.{ℤ, pos, eqb_int, ltb_int}
use sidecar_agent.Text.{Text, codes, text_eq, trim_space, trim_slashes, format_int, decimal}
use sidecar_agent.Model.Error.{Error, external, Result, ok, err}
use sidecar_agent.Model.Request.{RegisterRequest}
use sidecar_agent.Model.Route.{texts_eq}
use sidecar_agent.Model.Strings.{unique_sorted_strings}
use sidecar_agent.Registry.Exec.{State, Exec, random_bytes, now, pure, ◌>>=◌}
use sidecar_agent.Registry.Consul.{Outside, time_now}

-- `Settings`, less what only `New` hands to the Consul library. Durations are in nanoseconds.
pub record Settings : Type 0 where
  pub route_kv_prefix : Text
  pub cluster_name : Text
  pub zone : Text
  pub host_ip : Text
  pub env : Text
  pub agent_lease_ttl : ℤ
  pub deregister_critical_service_after : ℤ

pub record Client : Type 0 where
  pub settings : Settings
  pub agent_id : Text
  pub agent_run_id : Text
  pub started_at : ℕ
  -- which of the four interfaces are not nil
  pub has_agent : Bool
  pub has_health : Bool
  pub has_catalog : Bool
  pub has_kv : Bool

unfoldable pub local_key : Text → ℤ → Text
local_key name port = trim_space name ++ b':' ∷ format_int port

unfoldable pub build_agent_id : Settings → Text
build_agent_id st =
    trim_space st.cluster_name ++ b':' ∷ (trim_space st.zone ++ b':' ∷ trim_space st.host_ip)

unfoldable pub lease_check_id_for : Text → Text
lease_check_id_for instance_id =
    codes "service:" ++ (trim_space instance_id ++ codes ":agent-lease")

unfoldable pub route_config_ref : Client → Text → Text → Text → Text
route_config_ref c env namespace service =
    trim_slashes (trim_space c.settings.route_kv_prefix)
    ++ b'/'
      ∷ (trim_space env
          ++ b'/' ∷ (trim_space namespace ++ b'/' ∷ (trim_space service ++ codes "/current")))

unfoldable pub same_register_request : RegisterRequest → RegisterRequest → Bool
same_register_request left right =
    text_eq left.app_id right.app_id
    && text_eq left.app_name right.app_name
    && text_eq left.name right.name
    && text_eq left.namespace right.namespace
    && eqb_int left.port right.port
    && text_eq left.dns right.dns
    && text_eq left.env right.env
    && eqb_int left.weight right.weight
    && text_eq left.protocol right.protocol
    && text_eq left.kernel.language right.kernel.language
    && text_eq left.kernel.version right.kernel.version
    && text_eq left.version right.version
    && texts_eq (unique_sorted_strings left.methods) (unique_sorted_strings right.methods)

-- `byte(n)`
abbrev byte : ℕ → ℕ
byte n = n % 256

-- The buffer of the source has 16 bytes: the six of the time, then the random bytes 6 to 15 with the version and the variant.
unfoldable pub version_byte : ℕ → ℕ
version_byte b = bit_or (bit_and b 0x0f) 0x70

unfoldable pub variant_byte : ℕ → ℕ
variant_byte b = bit_or (bit_and b 0x3f) 0x80

mark : List ℕ → List ℕ
mark (b6 ∷ b7 ∷ b8 ∷ rest) = version_byte b6 ∷ b7 ∷ variant_byte b8 ∷ rest
mark _ = []

unfoldable pub stamp : ℕ → List ℕ → List ℕ
unfolding mark
stamp millis buffer =
    byte (millis / 2 ^ 40)
    ∷ byte (millis / 2 ^ 32)
    ∷ byte (millis / 2 ^ 24)
    ∷ byte (millis / 2 ^ 16)
    ∷ byte (millis / 2 ^ 8)
    ∷ byte millis
    ∷ mark (drop 6 buffer)

abbrev hex_digit : ℕ → ℕ
hex_digit n = if ltb n 10 then b'0' + n else b'a' + (n - 10)

-- `hex.EncodeToString`
unfoldable pub hex_encode : List ℕ → Text
hex_encode [] = []
hex_encode (b ∷ bytes) = hex_digit (b / 16) ∷ hex_digit (b % 16) ∷ hex_encode bytes

-- `text[from:to]`
abbrev slice : ℕ → ℕ → Text → Text
slice from to text = take (to - from) (drop from text)

unfoldable pub format_uuid : Text → Text
format_uuid e =
    slice 0 8 e
    ++ b'-'
      ∷ (slice 8 12 e ++ b'-' ∷ (slice 12 16 e ++ b'-' ∷ (slice 16 20 e ++ b'-' ∷ slice 20 32 e)))

-- `newInstanceID`
unfoldable pub new_instance_id : Outside → Exec Text
new_instance_id o = do
  buffer ← random_bytes o
  time ← now o
  pure (format_uuid (hex_encode (stamp (time / 10 ^ 6) buffer)))

-- A failing random source is made up for by the clock.
abbrev pub agent_run : Outside → Result Text × State → Text × State
agent_run o (ok id, s) = (id, s)
agent_run o (err e, s) =
    (codes "fallback-" ++ decimal (o.clock s.history), record s { history = time_now ∷ s.history })

-- `api.Config`, as far as `New` sets it.
pub record ApiConfig : Type 0 where
  pub address : Text
  pub scheme : Text
  pub datacenter : Text
  pub http_timeout : Option ℤ

-- What `New` makes of the settings for `api.NewClient`.
unfoldable pub api_config : (address scheme datacenter : Text) → (request_timeout : ℤ) → ApiConfig
api_config address scheme datacenter request_timeout = record {
  address = trim_space address;
  scheme = trim_space scheme;
  datacenter = trim_space datacenter;
  http_timeout = if ltb_int (pos 0) request_timeout then some request_timeout else none;
}

-- `NewWithClient`, for interfaces that are there.
unfoldable pub new_with_client : Outside → Settings → State → Client × State
new_with_client o st s =
    let (id, s') = agent_run o (new_instance_id o s) in
    (
      record {
        settings = st;
        agent_id = build_agent_id st;
        agent_run_id = id;
        started_at = o.clock s'.history;
        has_agent = true;
        has_health = true;
        has_catalog = true;
        has_kv = true;
      },
      record s' { history = time_now ∷ s'.history; local_services = []; running = false },
    )

-- `EnsureUsable`
unfoldable pub ensure_usable : Client → Option Error
ensure_usable c =
    if not c.has_agent
    then some (external (codes "consul agent api is required"))
    else if not c.has_health
    then some (external (codes "consul health api is required"))
    else if not c.has_catalog
    then some (external (codes "consul catalog api is required"))
    else if not c.has_kv
    then some (external (codes "consul kv api is required"))
    else none
