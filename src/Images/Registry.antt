-- ===== src/Images/Registry.antt =====
-- What happens to an image's registry.
use cass_operator.Prelude.{
  ◌≡◌, ◌≢◌, refl, true, false, ◌||◌, List, [], ◌∷◌, ◌++◌, arith, contains, ◌<◌, nat_eq, length,
  none, some,
}
use cass_operator.Strings.{
  Text, text_beq_iff, codes, split, join, split-append, split-no_sep, split-ne-nil, join-split,
  trim_suffix,
}
use cass_operator.Images.{
  Environment, Image, base_image_os_image, busy_box, image_lookup_map, strip_registry,
  apply_default_registry_override, get_image,
}

length-pos : (ws : List Text) → ws ≢ [] → 0 < length ws
length-pos [] h = absurd (h refl)
length-pos (w ∷ ws) h = omega arith

-- An image whose first part holds a dot or a colon loses that part.
pub strip_registry_host :
    (host rest : Text)
    → contains b'/' host ≡ false
    → (contains b'.' host || contains b':' host) ≡ true
    → strip_registry (host ++ (b'/' ∷ rest)) ≡ rest
unfolding strip_registry
strip_registry_host host rest no_slash looks =
    rw (split-append b'/' host rest, split-no_sep b'/' host no_slash)
      (ground (arith, join-split b'/' rest, length-pos (split b'/' rest) (split-ne-nil b'/' rest)))

-- An image whose first part holds neither is left as it is.
pub strip_registry_repository :
    (first rest : Text)
    → contains b'/' first ≡ false
    → contains b'.' first ≡ false
    → contains b':' first ≡ false
    → strip_registry (first ++ (b'/' ∷ rest)) ≡ first ++ (b'/' ∷ rest)
unfolding strip_registry
strip_registry_repository first rest no_slash no_dot no_colon =
    rw (split-append b'/' first rest, split-no_sep b'/' first no_slash) (ground arith)

-- An image with a tag and with no slash at all is lost.
pub strip_registry_lost :
    (image : Text)
    → contains b'/' image ≡ false
    → contains b':' image ≡ true
    → strip_registry image ≡ []
unfolding strip_registry
strip_registry_lost image no_slash tagged =
    rw (split-no_sep b'/' image no_slash) (unfold join in ground arith)

abbrev custom_registry : Environment → Text
custom_registry env = trim_suffix env.registry_override (codes "/")

-- The image of the table, with no registry in front of it.
abbrev pub table_image : Image → Text
table_image name = elim (image_lookup_map name) [ none ↦ [] | some image ↦ codes image ]

override_lem :
    (env : Environment) (image : Text)
    → custom_registry env ≢ []
    → apply_default_registry_override env image
      ≡ custom_registry env ++ (b'/' ∷ strip_registry image)
unfolding apply_default_registry_override
override_lem env image h = ground (arith, text_beq_iff (custom_registry env) [])

pub get_image-table :
    (env : Environment) (name : Image)
    → name ≢ base_image_os_image
    → get_image env name ≡ apply_default_registry_override env (table_image name)
unfolding get_image image_lookup_map
get_image-table env base_image_os_image o = absurd (o refl)
get_image-table env _ o = refl

strip_registry-table :
    (name : Image) → name ≢ busy_box → strip_registry (table_image name) ≡ table_image name
unfolding strip_registry image_lookup_map split join
strip_registry-table busy_box n = absurd (n refl)
strip_registry-table _ n = refl

-- With a registry override, each image of the table but busybox is taken from that registry under its
-- own path.
pub get_image_override :
    (env : Environment) (name : Image)
    → name ≢ busy_box
    → name ≢ base_image_os_image
    → custom_registry env ≢ []
    → get_image env name ≡ custom_registry env ++ (b'/' ∷ table_image name)
get_image_override env name n o h =
    rw (
      get_image-table env name o,
      override_lem env (table_image name) h,
      strip_registry-table name n,
    )

-- With a registry override, busybox loses its name: what is left is the registry and a slash.
pub get_image-busy_box :
    (env : Environment)
    → custom_registry env ≢ []
    → get_image env busy_box ≡ custom_registry env ++ (b'/' ∷ [])
get_image-busy_box env h =
    rw (get_image-table env busy_box (λ e. cc), override_lem env (table_image busy_box) h)
      (rw (
        strip_registry_lost (table_image busy_box) (unfold image_lookup_map in refl)
          (unfold image_lookup_map in refl)))
