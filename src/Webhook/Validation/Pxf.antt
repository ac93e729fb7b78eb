-- ===== src/Webhook/Validation/Pxf.antt =====
-- internal/webhook/validating.go: the rules of the PXF servers. A set of names is the list of them.
pub mod Servers
use cloudberry_k8s.Base.{
  ℕ, zero, suc, Bool, true, false, not, ◌&&◌, ◌||◌, Option, none, some, List, [], ◌∷◌, String,
  str_eq, if◌then◌else◌, map,
}
use cloudberry_k8s.Api.DataLoading.{
  SecretReference, PxfKerberosSpec, PxfServerSpec, PxfCustomConnector, PxfExtensionsSpec, PxfSpec,
  GpfdistSpec, PartitioningSpec, ErrorHandlingSpec, PxfJobSpec, GploadInputSourceSpec,
  GploadJobSpec, DataLoadingJob, DataLoadingJobTemplate, DataLoadingSpec,
}
use cloudberry_k8s.Webhook.Validation.Errors.{
  Rule, Warning, Outcome, ◌>>◌, quiet, ◌<|>◌, reject_if, check_each, both_none, reject_if-none,
  check_each-All,
}
use cloudberry_k8s.Webhook.Validation.Cluster.{is_one_of}

abbrev has_key : String → List (String × String) → Bool
has_key key [] = false
has_key key ((k, v) ∷ entries) = str_eq k key || has_key key entries

abbrev pub is_empty {ℓ} : {A : Type ℓ} → List A → Bool
is_empty [] = true
is_empty (x ∷ xs) = false

abbrev pxf_server_types : List String
pxf_server_types =
    "s3" ∷ "hdfs" ∷ "jdbc" ∷ "hbase" ∷ "hive" ∷ "gs" ∷ "abfss" ∷ "wasbs" ∷ "custom" ∷ []

abbrev pxf_object_store_server_types : List String
pxf_object_store_server_types = "s3" ∷ "gs" ∷ "abfss" ∷ "wasbs" ∷ []

abbrev pxf_kerberos_server_types : List String
pxf_kerberos_server_types = "hdfs" ∷ "hive" ∷ "hbase" ∷ []

unfoldable pub validate_pxf_object_store_server : PxfServerSpec → ℕ → Option Rule
validate_pxf_object_store_server srv i =
    reject_if (not (has_key "fs.s3a.endpoint" srv.config)) (Rule.server_endpoint i)
    <|> reject_if (str_eq srv.type "s3" && is_empty srv.credential_secrets)
        (Rule.server_credentials i)

unfoldable pub validate_pxf_jdbc_server : PxfServerSpec → ℕ → Option Rule
validate_pxf_jdbc_server srv i =
    reject_if (not (has_key "jdbc.driver" srv.config)) (Rule.server_jdbc_driver i)
    <|> reject_if (not (has_key "jdbc.url" srv.config)) (Rule.server_jdbc_url i)

unfoldable pub validate_pxf_hdfs_server : PxfServerSpec → ℕ → Option Rule
validate_pxf_hdfs_server srv i =
    reject_if (not (has_key "fs.defaultFS" srv.config)) (Rule.server_default_fs i)

unfoldable pub validate_pxf_server_type : PxfServerSpec → ℕ → Option Rule
validate_pxf_server_type srv i =
    if not (is_one_of srv.type pxf_server_types)
    then some (Rule.server_type i)
    else if str_eq srv.type "custom"
    then none
    else if is_one_of srv.type pxf_object_store_server_types
    then validate_pxf_object_store_server srv i
    else if str_eq srv.type "jdbc"
    then validate_pxf_jdbc_server srv i
    else if str_eq srv.type "hdfs"
    then validate_pxf_hdfs_server srv i
    else none

abbrev validate_kerberos : PxfServerSpec → ℕ → Option PxfKerberosSpec → Option Rule
validate_kerberos srv i none = none
validate_kerberos srv i (some kerberos) =
    reject_if (not (is_one_of srv.type pxf_kerberos_server_types)) (Rule.kerberos_server_type i)
    <|> reject_if (str_eq kerberos.principal "") (Rule.kerberos_principal i)
    <|> reject_if (str_eq kerberos.keytab_secret.name "") (Rule.kerberos_name i)
    <|> reject_if (str_eq kerberos.keytab_secret.key "") (Rule.kerberos_key i)

unfoldable pub validate_pxf_server_kerberos : PxfServerSpec → ℕ → Option Rule
validate_pxf_server_kerberos srv i = validate_kerberos srv i srv.kerberos

-- The names of the servers so far, and those that a connector backs.
pub record ServerNames : Type 0 where
  pub names : List String
  pub connector_backed : List String

abbrev pub is_connected : PxfServerSpec → List String → Bool
is_connected srv connectors = not (str_eq srv.type "custom") || is_one_of srv.name connectors

-- The checks of one turn of the loop of `validatePxfServers`, up to the names that it adds.
unfoldable pub validate_pxf_server : ℕ → PxfServerSpec → List String → ServerNames → Option Rule
validate_pxf_server i srv connectors known =
    reject_if (str_eq srv.name "") (Rule.server_name i)
    <|> reject_if (is_one_of srv.name known.names) (Rule.server_duplicate i)
    <|> validate_pxf_server_type srv i
    <|> validate_pxf_server_kerberos srv i
    <|> reject_if (not (is_connected srv connectors)) (Rule.server_connector i)

abbrev pub add_server : PxfServerSpec → ServerNames → ServerNames
add_server srv known = record known {
  names = srv.name ∷ known.names;
  connector_backed =
      if str_eq srv.type "custom"
      then srv.name ∷ known.connector_backed
      else known.connector_backed;
}

-- A sum of the error and what the code returns without one.
pub data Checked {ℓ} (A : Type ℓ) : Type ℓ where
  rejected : Rule → Checked A
  passed : A → Checked A

abbrev pub pass_if_none {ℓ} : {A : Type ℓ} → Option Rule → Checked A → Checked A
pass_if_none none next = next
pass_if_none (some err) next = rejected err

unfoldable pub validate_pxf_servers :
    ℕ → List PxfServerSpec → List String → ServerNames → Checked ServerNames
validate_pxf_servers i [] connectors known = passed known
validate_pxf_servers i (srv ∷ servers) connectors known =
    pass_if_none (validate_pxf_server i srv connectors known)
      (validate_pxf_servers (suc i) servers connectors (add_server srv known))

unfoldable pub pxf_custom_connector_names : List PxfCustomConnector → List String
pxf_custom_connector_names connectors = map (λ c. c.name) connectors

abbrev pub no_servers : ServerNames
no_servers = record { names = []; connector_backed = [] }

unfoldable pub validate_pxf : Option PxfSpec → Checked ServerNames
validate_pxf none = passed no_servers
validate_pxf (some pxf) =
    if pxf.enabled && str_eq pxf.image ""
    then rejected Rule.pxf_image
    else validate_pxf_servers 0 pxf.servers (pxf_custom_connector_names pxf.custom_connectors)
        no_servers
