-- ===== src/Emm/Harmless.antt =====
-- What an EMM operation may do while a rack is down, and names of pods that are down.

use cass_operator.Prelude.{
  String, ◌≡◌, refl, ap, Bool, true, false, not, ◌&&◌, ◌||◌, List, [], ◌∷◌, map, arith, All, any,
  all, contains, ◌==◌, ==-refl, string_eq, inl, inr, Bool-cases, some,
}
use cass_operator.Result.{ok}
use cass_operator.Pods.{
  Pod, is_server_ready, find_all_pods_not_ready_and_potentially_bootstrapped,
  has_pod_potentially_bootstrapped,
}
use cass_operator.Emm.World.{
  Effect, read_node, list_nodes, read_pvc, drain, delete_pod, update_pod, update_replace_nodes,
  delete_pvc, range_over, Spi,
}
use cass_operator.Emm.Nodes.{get_dc_pod_by_name}
use cass_operator.Emm.Service.{down_pods}
use cass_operator.Emm.Calm.{core, IsMild}

-- The name of a pod that is not ready
abbrev pub is_down : String → List Pod → Bool
is_down n ps = any (λ p. p.name == n && not (is_server_ready p)) ps

-- A node to be replaced: it was to be replaced before, or its pod is not ready.
abbrev pub IsReplaceable : List Pod → (before : List String) → String → Type 0
IsReplaceable ps before n = (contains n before || is_down n ps) ≡ true

-- A pod is drained or deleted, or its claim deleted, only while it is not ready, and only nodes of such pods are marked
-- for replacement.
abbrev pub IsHarmless : Spi → List Pod → (before : List String) → Effect → Type 0
IsHarmless spi ps before (drain p) = is_server_ready p ≡ false
IsHarmless spi ps before (delete_pod p) = is_server_ready p ≡ false
IsHarmless spi ps before (delete_pvc c) =
    (p : Pod) × (t : List Effect) × (spi.pvc_of t p ≡ ok c) × (is_server_ready p ≡ false)
IsHarmless spi ps before (update_replace_nodes names) = All (IsReplaceable ps before) names
IsHarmless spi ps before (update_pod p) = Unit
IsHarmless spi ps before (read_pvc p) = Unit
IsHarmless spi ps before (read_node name) = Unit
IsHarmless spi ps before list_nodes = Unit
IsHarmless spi ps before (range_over names) = Unit

pub mild-IsHarmless :
    (spi : Spi) (ps : List Pod) (before : List String) (e : Effect)
    → IsMild e
    → IsHarmless spi ps before e
mild-IsHarmless spi ps before (drain p) m = absurd m
mild-IsHarmless spi ps before (delete_pod p) m = absurd m
mild-IsHarmless spi ps before (delete_pvc c) m = absurd m
mild-IsHarmless spi ps before (update_replace_nodes names) m = absurd m
mild-IsHarmless spi ps before (update_pod p) m = tt
mild-IsHarmless spi ps before (read_pvc p) m = tt
mild-IsHarmless spi ps before (read_node name) m = tt
mild-IsHarmless spi ps before list_nodes m = tt
mild-IsHarmless spi ps before (range_over names) m = tt

pub All-weaken :
    {A : Type 0} (P Q : A → Type 0) (xs : List A) → ((x : A) → P x → Q x) → All P xs → All Q xs
All-weaken P Q [] f h = tt
All-weaken P Q (x ∷ xs) f h = (f x h.0, All-weaken P Q xs f h.1)

pub All-contains : (xs : List String) → All (λ n. contains n xs ≡ true) xs
All-contains [] = tt
All-contains (x ∷ xs) =
    (ground (arith, ==-refl x), All-weaken _ _ xs (λ n h. ground arith) (All-contains xs))

-- All pods of the name are not ready.
abbrev pub is_safe : String → List Pod → Bool
is_safe n ps = all (λ p. not (p.name == n) || not (is_server_ready p)) ps

abbrev pub unique_names : List Pod → Bool
unique_names [] = true
unique_names (p ∷ ps) = not (contains p.name (map (λ q. q.name) ps)) && unique_names ps

abbrev pub fits : String → List Pod → Bool
fits n ps = is_down n ps && is_safe n ps

-- The annotations of a pod do not count.
is_down-core : (n : String) (ps : List Pod) → is_down n (map core ps) ≡ is_down n ps
unfolding is_server_ready
is_down-core n [] = refl
is_down-core n (p ∷ ps) = ground (arith, is_down-core n ps)

is_safe-core : (n : String) (ps : List Pod) → is_safe n (map core ps) ≡ is_safe n ps
unfolding is_server_ready
is_safe-core n [] = refl
is_safe-core n (p ∷ ps) = ground (arith, is_safe-core n ps)

names-core : (ps : List Pod) → map (λ q. q.name) (map core ps) ≡ map (λ q. q.name) ps
names-core [] = refl
names-core (p ∷ ps) = ap (◌∷◌ p.name) (names-core ps)

unique_names-core : (ps : List Pod) → unique_names (map core ps) ≡ unique_names ps
unique_names-core [] = refl
unique_names-core (p ∷ ps) = rw (names-core ps, unique_names-core ps) refl

pub fits-same : (n : String) (ps qs : List Pod) → map core qs ≡ map core ps → fits n qs ≡ fits n ps
fits-same n ps qs e =
    rw (← is_down-core n qs, ← is_down-core n ps, ← is_safe-core n qs, ← is_safe-core n ps, e) refl

pub is_down-same :
    (n : String) (ps qs : List Pod) → map core qs ≡ map core ps → is_down n qs ≡ is_down n ps
is_down-same n ps qs e = rw (← is_down-core n qs, ← is_down-core n ps, e) refl

pub unique_names-same :
    (ps qs : List Pod) → map core qs ≡ map core ps → unique_names qs ≡ unique_names ps
unique_names-same ps qs e = rw (← unique_names-core qs, ← unique_names-core ps, e) refl

is_down-contains :
    (n : String) (ps : List Pod) → is_down n ps ≡ true → contains n (map (λ q. q.name) ps) ≡ true
is_down-contains n [] h = h
is_down-contains n (p ∷ ps) h = ground (arith, is_down-contains n ps)

contains-is_safe :
    (n : String) (ps : List Pod) → contains n (map (λ q. q.name) ps) ≡ false → is_safe n ps ≡ true
contains-is_safe n [] h = refl
contains-is_safe n (p ∷ ps) h = ground (arith, contains-is_safe n ps)

fits-later :
    (n : String) (p : Pod) (ps : List Pod)
    → contains p.name (map (λ q. q.name) ps) ≡ false
    → fits n ps ≡ true
    → fits n (p ∷ ps) ≡ true
fits-later n p ps other h = ground (arith, is_down-contains n ps, string_eq.same_iff p.name n)

-- Where names are unique, the name of a pod that is down stands for no ready pod.
pub down_pods-fit :
    (spi : Spi) (ps : List Pod)
    → unique_names ps ≡ true
    → All (λ p. fits p.name ps ≡ true) (down_pods spi ps)
unfolding down_pods find_all_pods_not_ready_and_potentially_bootstrapped
down_pods-fit spi [] h = tt
down_pods-fit spi (p ∷ ps) h =
    let other : contains p.name (map (λ q. q.name) ps) ≡ false = ground arith in
    let rest =
      All-weaken _ (λ q. fits q.name (p ∷ ps) ≡ true) _ (λ q f. fits-later q.name p ps other f)
        (down_pods-fit spi ps (ground arith)) in
    elim (Bool-cases
      (not (is_server_ready p) && has_pod_potentially_bootstrapped p spi.node_statuses)) [
        | inl t ↦ rw t (ground (arith, ==-refl p.name, contains-is_safe p.name ps other), rest)
        | inr f ↦ rw f rest
      ]

pub get_dc_pod_by_name-not_ready :
    (n : String) (ps : List Pod) (q : Pod)
    → get_dc_pod_by_name n ps ≡ some q
    → is_safe n ps ≡ true
    → is_server_ready q ≡ false
unfolding get_dc_pod_by_name
get_dc_pod_by_name-not_ready n [] q h safe = cc
get_dc_pod_by_name-not_ready n (p ∷ ps) q h safe =
    ground (arith, get_dc_pod_by_name-not_ready n ps q)
