-- ===== src/Watches/Names.antt =====
-- Namespaced names as texts, and back.
use mathlib.Core.List.{append_assoc}
use cass_operator.Prelude.{◌≡◌, refl, sym, ap, ◌∙◌, false, [], ◌∷◌, ◌++◌, contains, nat_eq}
use cass_operator.Strings.{
  Text, split, last, trim_suffix, trim_right, split-no_sep, split-append, last-concat,
  trim_suffix-append, trim_right-concat, trim_right-no_sep,
}

pub record NamespacedName : Type 0 where
  pub namespace : Text
  pub name : Text

unfoldable pub namespaced_name_to_string : NamespacedName → Text
namespaced_name_to_string n = n.namespace ++ (b'/' ∷ n.name)

unfoldable pub namespaced_name_from_string : Text → NamespacedName
namespaced_name_from_string s =
    let name = last (split b'/' s) in
    record { name = name; namespace = trim_right b'/' (trim_suffix s name) }

last-name :
    (ns name : Text) → contains b'/' name ≡ false → last (split b'/' (ns ++ (b'/' ∷ name))) ≡ name
last-name ns name no_slash =
    rw (split-append b'/' ns name, split-no_sep b'/' name no_slash)
      (last-concat (split b'/' ns) name)

namespace_left :
    (ns name : Text)
    → contains b'/' ns ≡ false
    → trim_right b'/' (trim_suffix (ns ++ (b'/' ∷ name)) name) ≡ ns
namespace_left ns name no_slash =
    ap (λ s. trim_right b'/' (trim_suffix s name)) (sym (append_assoc ns (b'/' ∷ []) name))
    ∙ ap (trim_right b'/') (trim_suffix-append (ns ++ (b'/' ∷ [])) name)
    ∙ trim_right-concat b'/' ns
    ∙ trim_right-no_sep b'/' ns no_slash

-- A name whose parts hold no slash is read back as it was written.
pub from-namespaced_name_to_string :
    (n : NamespacedName)
    → contains b'/' n.namespace ≡ false
    → contains b'/' n.name ≡ false
    → namespaced_name_from_string (namespaced_name_to_string n) ≡ n
unfolding namespaced_name_from_string namespaced_name_to_string
from-namespaced_name_to_string n plain_ns plain =
    rw (last-name n.namespace n.name plain, namespace_left n.namespace n.name plain_ns) refl
