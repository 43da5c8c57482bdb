-- ===== src/Construct/Security.antt =====
-- How the management API is secured: operator/pkg/httphelper/security.go, as far as it builds pods.
use cass_operator.Prelude.{
  String, append, true, List, [], ◌∷◌, ◌++◌, Option, none, some, ◌==◌, if◌then◌else◌, string_eq,
}
use cass_operator.Result.{Outcome, ok, err}
use cass_operator.Templates.{EnvVar, exec, Probe, Container, PodTemplateSpec, secret}
use cass_operator.Datacenter.{Datacenter, ManualAuth}
use cass_operator.Construct.Config.{env}

pub data Provider : Type 0 where
  insecure : Provider
  manual : ManualAuth → Provider

unfoldable pub build_manual_api_security_provider : Datacenter → Option Provider
build_manual_api_security_provider dc = elim dc.spec.management_api_auth.manual [
  | none ↦ none
  | some config ↦ some (manual config)
]

-- The insecure one also where none is asked for
unfoldable pub build_insecure_management_api_security_provider : Datacenter → Option Provider
build_insecure_management_api_security_provider dc =
    if dc.spec.management_api_auth.insecure
    then some insecure
    else elim dc.spec.management_api_auth.manual [ none ↦ some insecure | some config ↦ none ]

-- The loop over the two builders
unfoldable pub select_provider : Option Provider → List (Option Provider) → Outcome Provider
select_provider none [] = err "No security strategy specified for 'managementApiAuth'."
select_provider (some p) [] = ok p
select_provider selected (none ∷ options) = select_provider selected options
select_provider none (some q ∷ options) = select_provider (some q) options
select_provider (some p) (some q ∷ options) =
    err "Multiple options specified for 'managementApiAuth', but expected exactly one."

unfoldable pub build_management_api_security_provider : Datacenter → Outcome Provider
unfolding select_provider
build_management_api_security_provider dc = select_provider none (
    build_manual_api_security_provider dc ∷ build_insecure_management_api_security_provider dc ∷ [])

unfoldable pub get_protocol : Provider → String
get_protocol insecure = "http"
get_protocol (manual config) = "https"

abbrev wget_start : List String
wget_start = "wget" ∷ "--output-document" ∷ "/dev/null" ∷ "--no-check-certificate" ∷ []

abbrev ca_cert_path : String
ca_cert_path = "/management-api-certs/ca.crt"

abbrev tls_crt : String
tls_crt = "/management-api-certs/tls.crt"

abbrev tls_key : String
tls_key = "/management-api-certs/tls.key"

abbrev wget_certificates : List String
wget_certificates =
    "--certificate" ∷ tls_crt ∷ "--private-key" ∷ tls_key ∷ "--ca-certificate" ∷ ca_cert_path ∷ []

unfoldable pub build_mgmt_api_wget_action : Provider → (endpoint : String) → List String
build_mgmt_api_wget_action insecure endpoint = wget_start ++ (append "http://" endpoint ∷ [])
build_mgmt_api_wget_action (manual config) endpoint =
    wget_start ++ (wget_certificates ++ (append "https://" endpoint ∷ []))

abbrev post_data : String → String
post_data text = append "--post-data='" (append text "'")

unfoldable pub build_mgmt_api_wget_post_action : Provider → (endpoint text : String) → List String
build_mgmt_api_wget_post_action insecure endpoint text =
    wget_start ++ (post_data text ∷ append "http://" endpoint ∷ [])
build_mgmt_api_wget_post_action (manual config) endpoint text =
    wget_start ++ (wget_certificates ++ (post_data text ∷ append "https://" endpoint ∷ []))

unfoldable pub get_mgmt_api_wget_post_action :
    Datacenter → (endpoint text : String) → Outcome (List String)
get_mgmt_api_wget_post_action dc endpoint text = elim (build_management_api_security_provider dc) [
  | err e ↦ err e
  | ok provider ↦ ok (build_mgmt_api_wget_post_action provider endpoint text)
]

-- A probe whose handler is the command; a missing one is made.
abbrev exec_probe : Option Probe → List String → Probe
exec_probe none command = record {
  handler = exec command;
  initial_delay_seconds = 0;
  period_seconds = 0;
}
exec_probe (some probe) command = record probe { handler = exec command }

abbrev pub secret_volume_name : String
secret_volume_name = "management-api-server-certs-volume"

abbrev tls_env : List EnvVar
tls_env =
    env "MGMT_API_TLS_CA_CERT_FILE" ca_cert_path
    ∷ env "MGMT_API_TLS_CERT_FILE" tls_crt
    ∷ env "MGMT_API_TLS_KEY_FILE" tls_key
    ∷ env "DSE_MGMT_TLS_CA_CERT_FILE" ca_cert_path
    ∷ env "DSE_MGMT_TLS_CERT_FILE" tls_crt
    ∷ env "DSE_MGMT_TLS_KEY_FILE" tls_key
    ∷ []

unfoldable pub secure_container : ManualAuth → Container → Container
secure_container config c = record c {
  volume_mounts =
      c.volume_mounts
      ++ (record {
        name = secret_volume_name;
        mount_path = "/management-api-certs";
        read_only = true;
      }
          ∷ []);
  env = tls_env ++ c.env;
  liveness_probe = some (
      exec_probe c.liveness_probe
        (build_mgmt_api_wget_action (manual config) "localhost:8080/api/v0/probes/liveness"));
  readiness_probe = some (
      exec_probe c.readiness_probe
        (build_mgmt_api_wget_action (manual config) "localhost:8080/api/v0/probes/readiness"));
}

-- The last container of the name is changed; `none` if there is none.
unfoldable pub change_last :
    (name : String) → (Container → Container) → List Container → Option (List Container)
change_last name change [] = none
change_last name change (c ∷ cs) = elim (change_last name change cs) [
  | some cs' ↦ some (c ∷ cs')
  | none ↦ if c.name == name then some (change c ∷ cs) else none
]

unfoldable pub add_server_security : Provider → PodTemplateSpec → Outcome PodTemplateSpec
unfolding secure_container
add_server_security insecure pod = ok pod
add_server_security (manual config) pod =
    elim (change_last "cassandra" (secure_container config) pod.containers) [
      | none ↦ err "Could not find cassandra container"
      | some containers ↦ ok (record pod {
        containers = containers;
        volumes =
            pod.volumes
            ++ (record { name = secret_volume_name; source = secret config.server_secret_name }
                ∷ []);
      })
    ]

-- AddManagementApiServerSecurity, whose error the caller drops: the template is then as before.
unfoldable pub add_management_api_server_security : Datacenter → PodTemplateSpec → PodTemplateSpec
add_management_api_server_security dc pod = elim (build_management_api_security_provider dc) [
  | err e ↦ pod
  | ok provider ↦ elim (add_server_security provider pod) [ err e ↦ pod | ok pod' ↦ pod' ]
]
