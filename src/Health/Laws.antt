-- ===== src/Health/Laws.antt =====
-- What updateHealth does to the entries of the health document, and when an entry has which colour.
use cass_operator.Prelude.{
  String, ◌≡◌, refl, Bool, false, ◌&&◌, List, [], ◌∷◌, Option, none, some, arith, ◌==◌,
  if◌then◌else◌, string_eq,
}
use cass_operator.Datacenter.{Datacenter}
use cass_operator.Health.Document.{
  InstanceHealth, HealthStatus, Health, is_of, index_of, set_at, with_instance, update_health,
  create_instance_health, health_status,
}

-- The colour of a datacenter's first entry
abbrev pub find_health : (name namespace : String) → List InstanceHealth → Option HealthStatus
find_health name namespace [] = none
find_health name namespace (h ∷ hs) =
    let rest = find_health name namespace hs in
    if is_of name namespace h then some h.health else rest

abbrev pub is_pair : (n1 ns1 n2 ns2 : String) → Bool
is_pair n1 ns1 n2 ns2 = n1 == n2 && ns1 == ns2

find_health-head :
    (n ns : String) (h : InstanceHealth) (hs gs : List InstanceHealth) (e : Option HealthStatus)
    → is_of n ns h ≡ false
    → find_health n ns gs ≡ find_health n ns hs
    → find_health n ns (h ∷ gs) ≡ find_health n ns (h ∷ hs)
find_health-head n ns h hs gs e f same = ground arith

pub find_health-with_instance :
    (g : InstanceHealth) (n ns : String) (hs : List InstanceHealth)
    → find_health n ns (with_instance g (index_of g.instance_name g.namespace hs) hs)
      ≡ (if is_of n ns g then some g.health else find_health n ns hs)
unfolding with_instance index_of set_at
find_health-with_instance g n ns [] = refl
find_health-with_instance g n ns (h ∷ hs) =
    let rest = find_health-with_instance g n ns hs in
    ground (
      arith,
      rest,
      string_eq.same_iff h.instance_name g.instance_name,
      string_eq.same_iff h.namespace g.namespace,
      string_eq.same_iff g.instance_name n,
      string_eq.same_iff g.namespace ns,
      string_eq.same_iff h.instance_name n,
      string_eq.same_iff h.namespace ns,
    )

-- After updateHealth the colour that is found for a name and a namespace is the datacenter's own if they are those of the
-- datacenter, and otherwise the one that was found before.
pub find_health-update_health :
    (health : Health) (dc : Datacenter) (name namespace : String)
    → find_health name namespace (update_health health dc).instance_health ≡ (
        if is_pair dc.name dc.namespace name namespace
        then some (health_status dc)
        else find_health name namespace health.instance_health)
unfolding update_health create_instance_health
find_health-update_health health dc name namespace =
    find_health-with_instance (create_instance_health dc) name namespace health.instance_health
