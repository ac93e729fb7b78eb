-- ===== src/PxfPolicy.antt =====
-- internal/pxfpolicy/policy.go and the profile rules of internal/webhook/validating.go: which PXF
-- profiles there are, and over which of them an external table may be written.
use cloudberry_k8s.Base.{Bool, not, ◌&&◌, Option, none, some, List, [], ◌∷◌, String, ℕ}
use cloudberry_k8s.Base.{if◌then◌else◌, str_eq, map}
use cloudberry_k8s.Base.Text.{codes, to_lower, elem, same}
use cloudberry_k8s.Cron.Bytes.{cut}

abbrev pub mode_writable : List ℕ
mode_writable = codes "writable"

abbrev writable_formats : List (List ℕ)
writable_formats = map codes ("text" ∷ "parquet" ∷ "avro" ∷ "sequencefile" ∷ [])

abbrev bare_writable_profiles : List (List ℕ)
bare_writable_profiles = codes "jdbc" ∷ []

abbrev read_only_schemes : List (List ℕ)
read_only_schemes = map codes ("hive" ∷ "hbase" ∷ [])

-- `:`
abbrev colon : ℕ
colon = 58

-- The scheme before the first colon, and the format after it where there is one.
abbrev pub scheme_and_format : String → List ℕ × Option (List ℕ)
scheme_and_format profile = cut colon (to_lower (codes profile))

abbrev is_format_writable : List ℕ → Option (List ℕ) → Bool
is_format_writable scheme none = elem scheme bare_writable_profiles
is_format_writable scheme (some format) = elem format writable_formats

-- `IsProfileWritable`
unfoldable pub is_profile_writable : String → Bool
is_profile_writable profile =
    let parts = scheme_and_format profile in
    not (str_eq profile "")
    && not (elem parts.0 read_only_schemes)
    && is_format_writable parts.0 parts.1

abbrev object_store_formats : List (List ℕ)
object_store_formats = map codes ("text" ∷ "parquet" ∷ "avro" ∷ "json" ∷ "orc" ∷ [])

abbrev hdfs_formats : List (List ℕ)
hdfs_formats = codes "sequencefile" ∷ object_store_formats

-- The formats of a scheme, "" for a bare profile; no scheme, no formats.
abbrev pub pxf_profile_schemes : List ℕ → List (List ℕ)
pxf_profile_schemes scheme =
    if elem scheme (map codes ("s3" ∷ "gs" ∷ "abfss" ∷ "wasbs" ∷ []))
    then object_store_formats
    else if same scheme (codes "hdfs")
    then hdfs_formats
    else if same scheme (codes "hive")
    then map codes ("" ∷ "text" ∷ "orc" ∷ "rc" ∷ [])
    else if elem scheme (map codes ("jdbc" ∷ "hbase" ∷ []))
    then codes "" ∷ []
    else []

abbrev format_or_bare : Option (List ℕ) → List ℕ
format_or_bare none = []
format_or_bare (some format) = format

-- `isValidPxfProfile`
unfoldable pub is_valid_pxf_profile : String → Bool
is_valid_pxf_profile profile =
    let parts = scheme_and_format profile in
    not (str_eq profile "") && elem (format_or_bare parts.1) (pxf_profile_schemes parts.0)

abbrev custom_connector_schemes : List (List ℕ)
custom_connector_schemes = map codes ("kafka" ∷ "rabbitmq" ∷ [])

-- `isCustomConnectorProfile`
unfoldable pub is_custom_connector_profile : String → Bool
is_custom_connector_profile profile =
    not (str_eq profile "") && elem (scheme_and_format profile).0 custom_connector_schemes
