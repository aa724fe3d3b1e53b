-- ===== src/Ingestion/Upstream/OciTimes.antt =====
-- The times of an image in internal/ingestion/ghcr.go.
use changelogue.Prelude.{
  ℕ, Option, none, some, List, [], ◌∷◌, Bytes, bytes, ltb, ◌==◌, if◌then◌else◌, is_empty,
}
use changelogue.Models.{StringMap}
use changelogue.Text.{trim_space}
use changelogue.Ingestion.Store.{lookup}
use changelogue.Ingestion.Upstream.{Dates}

pub record Config : Type 0 where
  pub created : Bytes
  pub labels : StringMap
  pub history : List Bytes

-- parseGHCROCIUTCTime
abbrev pub parse_oci_time : Dates → Bytes → Option ℕ
parse_oci_time dates value = if is_empty (trim_space value) then none else dates (trim_space value)

abbrev pub value_of : Option Bytes → Bytes
value_of none = []
value_of (some value) = value

abbrev pub annotation_keys : List Bytes
annotation_keys =
    bytes "org.opencontainers.image.created"
    ∷ bytes "org.label-schema.build-date"
    ∷ bytes "org.label-schema.created"
    ∷ bytes "build-date"
    ∷ []

abbrev pub or_else : Option ℕ → Option ℕ → Option ℕ
or_else none later = later
or_else (some t) later = some t

unfoldable pub first_time : Dates → StringMap → List Bytes → Option ℕ
unfolding lookup trim_space
first_time dates m [] = none
first_time dates m (key ∷ keys) =
    or_else (parse_oci_time dates (value_of (lookup key m))) (first_time dates m keys)

-- timestampFromAnnotations
unfoldable pub timestamp_from_annotations : Dates → StringMap → Option ℕ
unfolding first_time
timestamp_from_annotations dates m = first_time dates m annotation_keys

-- `if ok && ts.After(latest) { latest = ts }`
abbrev pub later : Option ℕ → ℕ → ℕ
later none latest = latest
later (some t) latest = if ltb latest t then t else latest

unfoldable pub latest_created : Dates → ℕ → List Bytes → ℕ
unfolding trim_space
latest_created dates latest [] = latest
latest_created dates latest (created ∷ history) =
    latest_created dates (later (parse_oci_time dates created) latest) history

unfoldable pub latest_child : Dates → ℕ → List StringMap → ℕ
unfolding timestamp_from_annotations
latest_child dates latest [] = latest
latest_child dates latest (m ∷ children) =
    latest_child dates (later (timestamp_from_annotations dates m) latest) children

abbrev pub unless_zero : ℕ → Option ℕ
unless_zero t = if t == 0 then none else some t

-- timestampFromConfig
unfoldable pub timestamp_from_config : Dates → Config → Option ℕ
unfolding timestamp_from_annotations latest_created trim_space
timestamp_from_config dates c = or_else (parse_oci_time dates c.created) (
    or_else (timestamp_from_annotations dates c.labels)
      (unless_zero (latest_created dates 0 c.history)))
