-- ===== src/Envoy/Bootstrap.antt =====
-- envoy/bootstrap.go: the bootstrap file that is written before Envoy starts.
use sidecar_agent.Prelude.{ℕ, ◌<◌, ◌^◌, Option, none, some, [], ◌≡◌, refl, sym, ◌∙◌, ap}
use sidecar_agent.Prelude.Int.{ℤ, pos}
use sidecar_agent.Text.{Text, codes, trim_space, scan_int, decimal}
use sidecar_agent.Text.Scan.{scan_int-decimal, trim_space-decimal}
use sidecar_agent.Model.Error.{Error, Result, ok, err}

pub record BootstrapConfig : Type 0 where
  pub node_id : Text
  pub cluster_name : Text
  pub admin_address : Text
  pub xds_target : Text

-- What `yaml.Marshal` is given: `map[string]any`, `[]any`, texts and numbers.
mutual
  pub data Value : Type 0 where
    mapping : Fields → Value
    sequence : Items → Value
    text : Text → Value
    number : ℤ → Value

  pub data Fields : Type 0 where
    no_fields : Fields
    field : Text → Value → Fields → Fields

  pub data Items : Type 0 where
    no_items : Items
    item : Value → Items → Items

abbrev only : Value → Value
only v = sequence (item v no_items)

abbrev pub nested : Text → Value → Value
nested key v = mapping (field key v no_fields)

abbrev through_ads : Value
through_ads = mapping (
    field (codes "ads") (mapping no_fields)
      (field (codes "resource_api_version") (text (codes "V3")) no_fields))

-- A failed scan leaves the zero.
abbrev port_of : Option ℤ → ℤ
port_of none = pos 0
port_of (some n) = n

-- `net.SplitHostPort`
module _ (split_host_port : Text → Result (Text × Text)) where
  -- `splitAddress`
  unfoldable pub split_address : Text → Text × ℤ
  split_address address = elim (split_host_port (trim_space address)) [
    | err e ↦ ([], pos 0)
    | ok (host, raw_port) ↦ (host, port_of (scan_int raw_port))
  ]

  -- `socketAddress`
  unfoldable pub socket_address : Text → Value
  socket_address address = nested (codes "socket_address") (
      mapping (
        field (codes "address") (text (split_address address).0)
          (field (codes "port_value") (number (split_address address).1) no_fields)))

  -- The document of `WriteBootstrap`.
  unfoldable pub bootstrap_document : BootstrapConfig → Value
  bootstrap_document c = mapping (
      field (codes "node")
        (mapping (
          field (codes "id") (text (trim_space c.node_id))
            (field (codes "cluster") (text (trim_space c.cluster_name)) no_fields)))
        (field (codes "dynamic_resources")
          (mapping (
            field (codes "ads_config")
              (mapping (
                field (codes "api_type") (text (codes "GRPC")) (
                  field (codes "transport_api_version") (text (codes "V3")) (
                    field (codes "grpc_services")
                      (only (
                        nested (codes "envoy_grpc")
                          (nested (codes "cluster_name") (text (codes "xds_cluster")))))
                      no_fields))))
              (field (codes "lds_config") through_ads
                (field (codes "cds_config") through_ads no_fields))))
          (field (codes "static_resources")
            (nested (codes "clusters") (
              only (
                mapping (
                  field (codes "name") (text (codes "xds_cluster")) (
                    field (codes "type") (text (codes "STRICT_DNS")) (
                      field (codes "connect_timeout") (text (codes "3s")) (
                        field (codes "http2_protocol_options") (mapping no_fields) (
                          field (codes "load_assignment")
                            (mapping (
                              field (codes "cluster_name") (text (codes "xds_cluster")) (
                                field (codes "endpoints")
                                  (only (
                                    nested (codes "lb_endpoints") (
                                      only (
                                        nested (codes "endpoint") (
                                          nested (codes "address")
                                            (socket_address c.xds_target))))))
                                  no_fields)))
                            no_fields))))))))
            (field (codes "admin") (nested (codes "address") (socket_address c.admin_address))
              no_fields))))

  -- `os.MkdirAll` on a file's directory, `yaml.Marshal` and `os.WriteFile`.
  unfoldable pub write_bootstrap :
      (Text → Option Error)
      → (Value → Result Text)
      → (Text → Text → Option Error)
      → Text
      → BootstrapConfig
      → Option Error
  write_bootstrap mkdir_all marshal write_file path c = elim (mkdir_all path) [
    | some e ↦ some e
    | none ↦ elim (marshal (bootstrap_document c)) [
      | err e ↦ some e
      | ok payload ↦ write_file path payload
    ]
  ]

  -- An address that splits into a host and a port in decimal notation is written to the file as
  -- that host and that number, for a port below 2^63.
  socket_address-decimal :
      (address host : Text) (port : ℕ)
      → port < 2 ^ 63
      → split_host_port (trim_space address) ≡ ok (host, decimal port)
      → socket_address address
        ≡ nested (codes "socket_address") (
            mapping (
              field
                (codes "address")
                (text host)
                (field (codes "port_value") (number (pos port)) no_fields)))
  unfolding socket_address split_address
  socket_address-decimal address host port b h =
      let scanned : scan_int (decimal port) ≡ some (pos port) =
        ap scan_int (sym (trim_space-decimal port)) ∙ scan_int-decimal port b in
      let parts : split_address address ≡ (host, pos port) = rw (h, split_address, scanned) refl in
      rw (parts, socket_address) refl
