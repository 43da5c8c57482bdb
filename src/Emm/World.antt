-- ===== src/Emm/World.antt =====
-- What an EMM operation reads and changes: `EMMSPI` of operator/pkg/psp/emm.go, as the reconciler
-- implements it in operator/pkg/reconciliation/check_nodes.go. The pods are the datacenter's, held in
-- memory; every call that leaves the process is recorded, the newest first, and its answer may depend
-- on all calls before it.
use cass_operator.Prelude.{
  ℕ, String, ◌≡◌, Bool, List, [], ◌∷◌, ◌++◌, Option, none, some, count_if, ◌==◌, string_eq,
}
use cass_operator.Result.{Outcome, ok, err}
use cass_operator.Pods.{Pod}

pub record Taint : Type 0 where
  pub key : String
  pub value : String
  pub effect : String

pub record Node : Type 0 where
  pub name : String
  pub role : String  -- its label "kubernetes.io/role"
  pub taints : List Taint

pub record Pvc : Type 0 where
  pub name : String
  pub selected_node : String
  pub health : String  -- its annotation "volumehealth.storage.kubernetes.io/health"

-- `range_over` is the ranging over a map, which is no call, but whose order may differ each time.
pub data Effect : Type 0 where
  read_node : String → Effect
  list_nodes : Effect
  read_pvc drain delete_pod update_pod : Pod → Effect
  update_replace_nodes : List String → Effect
  delete_pvc : Pvc → Effect
  range_over : List String → Effect

-- `replace_nodes` is the list of that name in the datacenter's specification.
pub record World : Type 0 where
  pub pods : List Pod
  pub replace_nodes : List String
  pub trace : List Effect

-- `range` is the order in which Go ranges over the keys of a map; each key occurs as often as in the map.
pub record Spi : Type 0 where
  pub now : ℕ
  pub node_of : List Effect → (name : String) → Outcome Node
  pub all_nodes : List Effect → Outcome (List Node)
  pub pvc_of : List Effect → Pod → Outcome Pvc
  pub failure : List Effect → Effect → Option String
  pub range : List Effect → List String → List String
  pub range-same :
      (t : List Effect) (names : List String) (n : String)
      → count_if (λ m. m == n) (range t names) ≡ count_if (λ m. m == n) names
  pub node_statuses : List (String × String)
  pub in_progress_node_replacements : List String
  pub is_stopped : Bool
  pub is_initialized : Bool

-- Go's functions with a result and an error; what was changed before an error stays changed.
abbrev pub M : Type 0 → Type 0
M A = World → Outcome A × World

unfoldable pub pure : {A : Type 0} → A → M A
pure a w = (ok a, w)

abbrev pub continue : {A B : Type 0} → Outcome A → (A → M B) → M B
continue (ok a) f w = f a w
continue (err e) f w = (err e, w)

infixl 5 ◌>>=◌ ◌>>◌
-- opening this opens `pure` too
unfoldable pub ◌>>=◌ : {A B : Type 0} → M A → (A → M B) → M B
unfolding pure
◌>>=◌ m f w = let (r, w') = m w in continue r f w'

abbrev pub ◌>>◌ : {A B : Type 0} → M A → M B → M B
m >> n = m >>= λ _. n

unfoldable pub fail : {A : Type 0} → String → M A
fail e w = (err e, w)

unfoldable pub get_pods : M (List Pod)
get_pods w = (ok w.pods, w)

unfoldable pub get_node : Spi → (name : String) → M Node
get_node spi name w = (spi.node_of w.trace name, record w { trace = read_node name ∷ w.trace })

unfoldable pub get_all_nodes : Spi → M (List Node)
get_all_nodes spi w = (spi.all_nodes w.trace, record w { trace = list_nodes ∷ w.trace })

unfoldable pub get_pod_pvc : Spi → Pod → M Pvc
get_pod_pvc spi pod w = (spi.pvc_of w.trace pod, record w { trace = read_pvc pod ∷ w.trace })

-- `for name := range names`
unfoldable pub ranged : Spi → List String → M (List String)
ranged spi names w = (ok (spi.range w.trace names), record w { trace = range_over names ∷ w.trace })

abbrev pub outcome_of : Option String → Outcome (Unit {0})
outcome_of none = ok tt
outcome_of (some e) = err e

unfoldable pub perform : Spi → Effect → M (Unit {0})
perform spi e w = (outcome_of (spi.failure w.trace e), record w { trace = e ∷ w.trace })

-- The name is added in memory, and the datacenter is updated.
unfoldable pub add_replace_node : Spi → (name : String) → M (Unit {0})
unfolding perform
add_replace_node spi name w =
    let names = w.replace_nodes ++ (name ∷ []) in
    perform spi (update_replace_nodes names) (record w { replace_nodes = names })
