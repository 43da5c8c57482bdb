-- ===== src/Startup/Shapes.antt =====
-- Which pods are starting and which are ready, as the labels of a pass leave it.
use cass_operator.Prelude.{
  String, ◌≡◌, refl, Bool, true, false, not, ◌&&◌, List, [], ◌∷◌, map, arith, All, ◌==◌,
  if◌then◌else◌, string_eq, contains, inl, inr, Bool-cases,
}
use cass_operator.Pods.{Pod, is_server_starting, is_server_ready}
use cass_operator.Startup.World.{Member, pods_of, relabel_member, with_labels}

pub record Shape : Type 0 where
  pub name : String
  pub starting : Bool
  pub ready : Bool

abbrev pub shape : Pod → Shape
shape p = record { name = p.name; starting = is_server_starting p; ready = is_server_ready p }

abbrev pub shapes : List Member → List Shape
shapes ms = map (λ m. shape m.pod) ms

abbrev pub unique : List Shape → Bool
unique [] = true
unique (a ∷ v) = not (contains a.name (map (λ b. b.name) v)) && unique v

-- What the pod's name stands for among the shapes
abbrev pub Agrees : List Shape → Pod → Type 0
Agrees v p =
    All
      (λ a. (if a.name == p.name then a.starting else is_server_starting p) ≡ is_server_starting p)
      v

other_names :
    (p : Pod) (v : List Shape) → contains p.name (map (λ b. b.name) v) ≡ false → Agrees v p
other_names p [] h = tt
other_names p (a ∷ v) h = (ground arith, other_names p v (ground arith))

All-Agrees-cons :
    (a : Shape) (v : List Shape) (ms : List Member)
    → contains a.name (map (λ b. b.name) (shapes ms)) ≡ false
    → All (Agrees v) (pods_of ms)
    → All (Agrees (a ∷ v)) (pods_of ms)
All-Agrees-cons a v [] h k = tt
All-Agrees-cons a v (m ∷ ms) h k = (
  (ground (arith, string_eq.same_iff a.name m.pod.name, string_eq.same_iff m.pod.name a.name), k.0),
  All-Agrees-cons a v ms (ground arith) k.1,
)

-- Where names are unique, each pod has the shape of its name.
pub unique-Agrees :
    (ms : List Member) → unique (shapes ms) ≡ true → All (Agrees (shapes ms)) (pods_of ms)
unique-Agrees [] h = tt
unique-Agrees (m ∷ ms) h = (
  (ground arith, other_names m.pod (shapes ms) (ground arith)),
  All-Agrees-cons (shape m.pod) (shapes ms) ms (ground arith) (unique-Agrees ms (ground arith)),
)

-- New labels that do not change whether the pod is starting leave the shapes.
pub shapes-relabel :
    (p : Pod) (ls : List (String × String)) (ms : List Member)
    → Agrees (shapes ms) p
    → is_server_starting (with_labels ls p) ≡ is_server_starting p
    → shapes (map (relabel_member p.name ls) ms) ≡ shapes ms
unfolding is_server_starting is_server_ready
shapes-relabel p ls [] h k = refl
shapes-relabel p ls (m ∷ ms) h k =
    let rest = shapes-relabel p ls ms h.1 k in
    elim (Bool-cases (m.pod.name == p.name)) [
      | inl same ↦ ground (arith, rest)
      | inr other ↦ ground (arith, rest)
    ]
