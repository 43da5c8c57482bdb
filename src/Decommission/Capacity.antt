-- ===== src/Decommission/Capacity.antt =====
-- Whether the other pods can take over a pod's data: EnsurePodsCanAbsorbDecommData.
use cass_operator.Prelude.{
  ℕ, String, ◌+◌, List, [], ◌∷◌, Option, none, some, ◌==◌, ltb, if◌then◌else◌, string_eq, lookup,
  insert,
}
use cass_operator.Result.{Outcome, ok, err}
use cass_operator.Passing.{◌>>=◌, ◌>>◌, pure, fail, lift_outcome}
use cass_operator.Datacenter.{Condition, valid, status_false}
use cass_operator.Conditions.{set_condition}
use cass_operator.Pods.{Pod}
use cass_operator.Startup.World.{Endpoint, get_rpc_address}
use cass_operator.Decommission.World.{Settings, M, get, put, perform, patch_status}

-- The last of the endpoints with the pod's address: MapPodsToEndpointDataByName
unfoldable pub endpoint_of : (ip : String) → List Endpoint → Option Endpoint
endpoint_of ip [] = none
endpoint_of ip (ep ∷ eps) =
    let later = endpoint_of ip eps in
    elim later [
      | some found ↦ some found
      | none ↦ if get_rpc_address ep == ip then some ep else none
    ]

-- GetUsedStorageForPods; a pod without an endpoint has no entry. No two pods have one name.
unfoldable pub get_used_storage_for_pods : Settings → List Pod → Outcome (List (String × ℕ))
get_used_storage_for_pods cfg [] = ok []
get_used_storage_for_pods cfg (p ∷ ps) =
    let rest = get_used_storage_for_pods cfg ps in
    elim (endpoint_of p.pod_ip cfg.endpoints) [
      | none ↦ rest
      | some ep ↦ elim (cfg.parse_load ep.load) [
        | err e ↦ err e
        | ok used ↦ elim rest [ err e ↦ err e | ok m ↦ ok (insert p.name used m) ]
      ]
    ]

-- `podsUsedStorage[name]`
abbrev pub used_at : String → List (String × ℕ) → ℕ
used_at name m = elim (lookup name m) [ none ↦ 0 | some used ↦ used ]

unfoldable pub read_capacity : Settings → Pod → M ℕ
unfolding lift_outcome
read_capacity cfg p s = (
  elim (cfg.capacity s.trace p) [
    | err e ↦ err e
    | ok none ↦ err "could not determine storage capacity"
    | ok (some total) ↦ ok total
  ],
  s,
)

abbrev pub no_space : Condition
no_space = record {
  type = valid;
  status = status_false;
  reason = "notEnoughSpaceToScaleDown";
  message = "not enough free space available to decommission";
  last_transition_time = 0;
}

-- The datacenter is marked as not valid.
unfoldable pub refuse_scale_down : Settings → M (Unit {0})
refuse_scale_down cfg = do
  s ← get
  let (updated, conditions) = set_condition cfg.now no_space s.conditions
  put (record s { conditions = conditions })
  (if updated then perform cfg patch_status else pure tt)
  fail "not enough free space available to decommission"

-- The loop over the pods
unfoldable pub can_absorb : Settings → (used : List (String × ℕ)) → Pod → List Pod → M (Unit {0})
can_absorb cfg used leaving [] = pure tt
can_absorb cfg used leaving (p ∷ ps) =
    let rest = can_absorb cfg used leaving ps in
    if p.name == leaving.name
    then rest
    else read_capacity cfg p >>= λ total.
        if ltb total (used_at p.name used + used_at leaving.name used)
        then refuse_scale_down cfg
        else rest

unfoldable pub ensure_pods_can_absorb_decomm_data : Settings → Pod → M (Unit {0})
ensure_pods_can_absorb_decomm_data cfg leaving = do
  s ← get
  used ← lift_outcome (get_used_storage_for_pods cfg s.dc_pods)
  can_absorb cfg used leaving s.dc_pods
