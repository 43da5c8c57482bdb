-- ===== src/Handler/Examples.antt =====
-- The theorems on the handler at a datacenter that is to be deleted, with one claim.
use cass_operator.Prelude.{true, [], ◌∷◌, none, List}
use cass_operator.Result.{ok}
use cass_operator.Datacenter.{Datacenter}
use cass_operator.Fixtures.{datacenter, rack}
use cass_operator.Reconcile.World.{Settings, State, Answer, found, not_found, Claim, Call}

abbrev some_datacenter : Datacenter
some_datacenter = record (datacenter "cassandra" "3.11.7" 1 (rack "r1" ∷ [])) {
  finalizers = "finalizer.cassandra.datastax.com" ∷ [];
  is_deleted = true;
}

abbrev some_settings : Settings
some_settings = record {
  now = 100;
  around = record {
    environment = record { registry_override = []; base_image_os = []; pull_secrets = "" };
    psp_enabled = true;
    extension_id = "";
    merge_json = λ values config. ok "{}";
    hash = λ sts. "h";
  };
  desired_rack_information = [];
  failure = λ t c. none;
  get_stateful_set = λ t name. not_found;
  get_pod = λ t name. not_found;
  claim_of_pod = λ p. none;
  get_claim = λ t name. not_found;
  get_secret = λ t name. not_found;
}

abbrev some_state : State
some_state = record {
  dc = some_datacenter;
  stateful_sets = [];
  dc_pods = [];
  node_to_dc = ("w1", ("ns", "dc1") ∷ ("ns", "dc2") ∷ []) ∷ [];
  trace = [];
}

abbrev one_claim : List Call → Answer (List Claim)
one_claim t = found (record { name = "server-data-p0"; labels = [] } ∷ [])
