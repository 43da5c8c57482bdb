-- ===== src/Images.antt =====
-- operator/pkg/images/images.go: which versions are supported, and which image a version runs.
-- The environment variables are an argument; an unset one is the empty text.
pub mod Versions
pub mod Registry
pub mod Found
mod Examples
use cass_operator.Prelude.{
  ℕ, String, Bool, true, false, ◌&&◌, ◌||◌, List, [], ◌∷◌, ◌++◌, Option, none, some, length, lookup,
  contains, ◌==◌, leb, ltb, if◌then◌else◌, nat_eq, string_eq,
}
use cass_operator.Strings.{Text, codes, text_eq, split, join, has_prefix, trim_suffix}

pub record Environment : Type 0 where
  pub registry_override : Text
  pub base_image_os : Text
  pub pull_secrets : String

pub data Image : Type 0 where
  cassandra_3_11_7 cassandra_3_11_8 cassandra_3_11_9 cassandra_3_11_10 cassandra_4_0_0 : Image
  ubi_cassandra_3_11_6 ubi_cassandra_3_11_7 ubi_cassandra_4_0_0 : Image
  dse_6_8_0 dse_6_8_1 dse_6_8_2 dse_6_8_3 dse_6_8_4 : Image
  ubi_dse_6_8_0 ubi_dse_6_8_1 ubi_dse_6_8_2 ubi_dse_6_8_3 ubi_dse_6_8_4 : Image
  config_builder ubi_config_builder busy_box base_image_os_image system_logger_image : Image

pub image_lookup_map : Image → Option String
image_lookup_map cassandra_3_11_7 = some "k8ssandra/cass-management-api:3.11.7-v0.1.25"
image_lookup_map cassandra_3_11_8 = some "k8ssandra/cass-management-api:3.11.8-v0.1.25"
image_lookup_map cassandra_3_11_9 = some "k8ssandra/cass-management-api:3.11.9-v0.1.25"
image_lookup_map cassandra_3_11_10 = some "k8ssandra/cass-management-api:3.11.10-v0.1.25"
image_lookup_map cassandra_4_0_0 = some "k8ssandra/cass-management-api:4.0.0-v0.1.25"
image_lookup_map ubi_cassandra_3_11_6 = some "datastax/cassandra:3.11.6-ubi7"
image_lookup_map ubi_cassandra_3_11_7 = some "datastax/cassandra:3.11.7-ubi7"
image_lookup_map ubi_cassandra_4_0_0 = some "datastax/cassandra:4.0-ubi7"
image_lookup_map dse_6_8_0 = some "datastax/dse-server:6.8.0"
image_lookup_map dse_6_8_1 = some "datastax/dse-server:6.8.1"
image_lookup_map dse_6_8_2 = some "datastax/dse-server:6.8.2"
image_lookup_map dse_6_8_3 = some "datastax/dse-server:6.8.3"
image_lookup_map dse_6_8_4 = some "datastax/dse-server:6.8.4"
image_lookup_map ubi_dse_6_8_0 = some "datastax/dse-server:6.8.0-ubi7"
image_lookup_map ubi_dse_6_8_1 = some "datastax/dse-server:6.8.1-ubi7"
image_lookup_map ubi_dse_6_8_2 = some "datastax/dse-server:6.8.2-ubi7"
image_lookup_map ubi_dse_6_8_3 = some "datastax/dse-server:6.8.3-ubi7"
image_lookup_map ubi_dse_6_8_4 = some "datastax/dse-server:6.8.4-ubi7"
image_lookup_map config_builder = some "datastax/cass-config-builder:1.0.3"
image_lookup_map ubi_config_builder = some "datastax/cass-config-builder:1.0.3-ubi7"
image_lookup_map busy_box = some "busybox:1.32.0-uclibc"
image_lookup_map base_image_os_image = none
image_lookup_map system_logger_image = some "k8ssandra/system-logger:9c4c3692"

unfoldable pub version_to_oss_cassandra : List (String × Image)
version_to_oss_cassandra =
    ("3.11.7", cassandra_3_11_7)
    ∷ ("3.11.8", cassandra_3_11_8)
    ∷ ("3.11.9", cassandra_3_11_9)
    ∷ ("3.11.10", cassandra_3_11_10)
    ∷ ("4.0.0", cassandra_4_0_0)
    ∷ []

unfoldable pub version_to_ubi_oss_cassandra : List (String × Image)
version_to_ubi_oss_cassandra =
    ("3.11.6", ubi_cassandra_3_11_6)
    ∷ ("3.11.7", ubi_cassandra_3_11_7)
    ∷ ("4.0.0", ubi_cassandra_4_0_0)
    ∷ []

unfoldable pub version_to_dse : List (String × Image)
version_to_dse =
    ("6.8.0", dse_6_8_0)
    ∷ ("6.8.1", dse_6_8_1)
    ∷ ("6.8.2", dse_6_8_2)
    ∷ ("6.8.3", dse_6_8_3)
    ∷ ("6.8.4", dse_6_8_4)
    ∷ []

unfoldable pub version_to_ubi_dse : List (String × Image)
version_to_ubi_dse =
    ("6.8.0", ubi_dse_6_8_0)
    ∷ ("6.8.1", ubi_dse_6_8_1)
    ∷ ("6.8.2", ubi_dse_6_8_2)
    ∷ ("6.8.3", ubi_dse_6_8_3)
    ∷ ("6.8.4", ubi_dse_6_8_4)
    ∷ []

pub is_digit : ℕ → Bool
is_digit c = leb b'0' c && leb c b'9'

-- A regular expression of a literal and `\d+`, at the head of a text: one digit settles a match.
unfoldable pub digit_follows : Text → Text → Bool
unfolding is_digit
digit_follows [] [] = false
digit_follows [] (c ∷ s) = is_digit c
digit_follows (p ∷ ps) [] = false
digit_follows (p ∷ ps) (c ∷ s) = p == c && digit_follows ps s

-- MatchString looks for a match anywhere in the text.
pub match_string : Text → Text → Bool
match_string p [] = digit_follows p []
match_string p (c ∷ s) = digit_follows p (c ∷ s) || match_string p s

unfoldable pub is_dse_version_supported : String → Bool
unfolding match_string
is_dse_version_supported version = match_string (codes "6.8.") (codes version)

unfoldable pub is_oss_version_supported : String → Bool
unfolding match_string
is_oss_version_supported version =
    match_string (codes "3.11.") (codes version) || match_string (codes "4.0.") (codes version)

-- `comps[0]` and `strings.Join(comps[1:], "/")`; `split` has a part at least.
strip_parts : Text → List Text → Text
strip_parts image [] = image
strip_parts image (w ∷ ws) =
    if (ltb 0 (length ws) && contains b'.' w) || contains b':' w then join b'/' ws else image

pub strip_registry : Text → Text
unfolding strip_parts
strip_registry image = strip_parts image (split b'/' image)

pub apply_default_registry_override : Environment → Text → Text
apply_default_registry_override env image =
    let custom_registry = trim_suffix env.registry_override (codes "/") in
    if custom_registry == [] then image else custom_registry ++ (b'/' ∷ strip_registry image)

pub get_image : Environment → Image → Text
get_image env name = elim (image_lookup_map name) [
  | none ↦ or_empty env.base_image_os
  | some image ↦ or_empty (codes image)
]
  where
    or_empty : Text → Text
    or_empty image = if image == [] then [] else apply_default_registry_override env image

pub should_use_ubi : Environment → Bool
should_use_ubi env = if env.base_image_os == [] then false else true

pub data ImageResult : Type 0 where
  found : Text → ImageResult
  unknown_server_type unsupported_version : ImageResult

pub fallback : Environment → Text → String → ImageResult
unfolding should_use_ubi
fallback env name version =
    found (
      if should_use_ubi env
      then name ++ (codes version ++ codes "-ubi7")
      else name ++ codes version)

pub get_cassandra_image : Environment → (server_type version : String) → ImageResult
unfolding should_use_ubi fallback version_to_ubi_dse version_to_dse version_to_ubi_oss_cassandra
    version_to_oss_cassandra
get_cassandra_image env server_type version =
    let dse_map = if should_use_ubi env then version_to_ubi_dse else version_to_dse in
    let cassandra_map =
      if should_use_ubi env then version_to_ubi_oss_cassandra else version_to_oss_cassandra in
    if server_type == "dse"
    then elim (lookup version dse_map) [
      | some image ↦ found (get_image env image)
      | none ↦
          if is_dse_version_supported version
          then fallback env (codes "datastax/dse-server:") version
          else unsupported_version
    ]
    else if server_type == "cassandra"
    then elim (lookup version cassandra_map) [
      | some image ↦ found (get_image env image)
      | none ↦
          if is_oss_version_supported version
          then fallback env (codes "datastax/cassandra-mgmtapi:") version
          else unsupported_version
    ]
    else unknown_server_type

pub get_config_builder_image : Environment → Text
unfolding should_use_ubi
get_config_builder_image env =
    get_image env (if should_use_ubi env then ubi_config_builder else config_builder)

pub get_system_logger_image : Environment → Text
get_system_logger_image env = get_image env system_logger_image

-- The secrets that the pod specification lists, and whether one was added.
pub add_default_registry_image_pull_secrets : Environment → List String → List String × Bool
add_default_registry_image_pull_secrets env secrets =
    if env.pull_secrets == "" then (secrets, false) else (secrets ++ (env.pull_secrets ∷ []), true)
