-- ===== src/Config/Connection.antt =====
-- What the connection profile and the arguments of the connector are, against the document.
use snowglobe.Prelude.{String, ◌≡◌, refl, Bool, true, false, str_eq_iff}
use snowglobe.Exec.{Result, ok, configuration_error}
use snowglobe.Fallible.{require, bind_returned, >>-eq-ok, require-eq-ok}
use snowglobe.Arrow.Types.{Bytes}
use snowglobe.Config.Toml.{text, table, Table, get_item}
use snowglobe.Config.Profiles.{
  SnowflakeProfile, as_table, required_string, string_field, read_snowflake_profile,
  load_snowflake_profile,
}
use snowglobe.Config.Loading.{configured-ok, as_table-ok, required_string-ok}
use snowglobe.Config.PrivateKey.{Cryptography, load_private_key}
use snowglobe.Config.Arguments.{ConnectorArguments, build_connector_arguments}

ok_injective {ℓ} : {A : Type ℓ} (a b : A) → ◌≡◌ {A = Result A} (ok a) (ok b) → a ≡ b
ok_injective a b h = cc h

-- The field of a table is this text, and not blank.
abbrev pub HasText : (String → Bool) → Table → String → String → Type 0
HasText is_blank t name s = (get_item name t ≡ ok (text s)) × (is_blank s ≡ false)

-- The arguments that the table of a profile asks for, with the key that its file holds.
pub record Asks (is_blank : String → Bool) (crypto : Cryptography)
    (read_key : String → Result Bytes) (t : Table) (a : ConnectorArguments) : Type 0 where
  pub account : HasText is_blank t "account" a.account
  pub user : HasText is_blank t "user" a.user
  pub database : HasText is_blank t "database" a.database
  pub warehouse : HasText is_blank t "warehouse" a.warehouse
  pub role : HasText is_blank t "role" a.role
  pub authenticator : HasText is_blank t "authenticator" "SNOWFLAKE_JWT"
  pub by_key_pair : a.authenticator ≡ "SNOWFLAKE_JWT"
  pub key_path : String
  pub private_key_path : HasText is_blank t "private_key_path" key_path
  pub private_key : load_private_key crypto (read_key key_path) ≡ ok a.private_key
  pub one_thread : a.client_prefetch_threads ≡ 1
  pub login : a.login_timeout ≡ 30
  pub network : a.network_timeout ≡ 60
  pub socket : a.socket_timeout ≡ 15
  pub abort : a.abort_detached_query ≡ true
  pub queued : a.statement_queued_timeout_in_seconds ≡ 15
  pub statement : a.statement_timeout_in_seconds ≡ 60

-- The profile that a table gives.
pub record IsProfile (is_blank : String → Bool) (t : Table) (p : SnowflakeProfile) : Type 0 where
  pub account : HasText is_blank t "account" p.account
  pub user : HasText is_blank t "user" p.user
  pub authenticator : HasText is_blank t "authenticator" p.authenticator
  pub private_key_path : HasText is_blank t "private_key_path" p.private_key_path
  pub database : HasText is_blank t "database" p.database
  pub warehouse : HasText is_blank t "warehouse" p.warehouse
  pub role : HasText is_blank t "role" p.role
  pub by_key_pair : p.authenticator ≡ "SNOWFLAKE_JWT"

string_field-HasText :
    (is_blank : String → Bool) (name : String) (t : Table) (s : String)
    → string_field is_blank name t ≡ ok s
    → HasText is_blank t name s
unfolding string_field
string_field-HasText is_blank name t s h =
    let (v, found, rest) = bind_returned (get_item name t) (required_string is_blank) s h in
    let (is_text, full) = required_string-ok is_blank v s rest in (rw is_text at found, full)

pub load_snowflake_profile-IsProfile :
    (is_blank : String → Bool) (loaded : Result Table) (name : String) (p : SnowflakeProfile)
    → load_snowflake_profile is_blank loaded name ≡ ok p
    → (document : Table) × (t : Table) × (loaded ≡ ok document)
      × (get_item name document ≡ ok (table t))
      × IsProfile is_blank t p
unfolding load_snowflake_profile read_snowflake_profile
load_snowflake_profile-IsProfile is_blank loaded name p h =
    let (document, parsed, h1) = bind_returned loaded _ p (configured-ok _ p h) in
    let (v, e2, h2) = bind_returned (get_item name document) _ p h1 in
    let (t, e3, h3) = bind_returned (as_table v) _ p h2 in
    let (x0, f0, k0) = bind_returned (string_field is_blank "account" t) _ p h3 in
    let (x1, f1, k1) = bind_returned (string_field is_blank "user" t) _ p k0 in
    let (x2, f2, k2) = bind_returned (string_field is_blank "authenticator" t) _ p k1 in
    let (x3, f3, k3) = bind_returned (string_field is_blank "private_key_path" t) _ p k2 in
    let (x4, f4, k4) = bind_returned (string_field is_blank "database" t) _ p k3 in
    let (x5, f5, k5) = bind_returned (string_field is_blank "warehouse" t) _ p k4 in
    let (x6, f6, k6) = bind_returned (string_field is_blank "role" t) _ p k5 in
    let (jwt, last) = >>-eq-ok (require _ configuration_error) _ p k6 in
    let same = ok_injective _ p last in
    (
      document,
      t,
      parsed,
      rw (as_table-ok v t e3) at e2,
      rw (← same) (record {
        account = string_field-HasText is_blank "account" t x0 f0;
        user = string_field-HasText is_blank "user" t x1 f1;
        authenticator = string_field-HasText is_blank "authenticator" t x2 f2;
        private_key_path = string_field-HasText is_blank "private_key_path" t x3 f3;
        database = string_field-HasText is_blank "database" t x4 f4;
        warehouse = string_field-HasText is_blank "warehouse" t x5 f5;
        role = string_field-HasText is_blank "role" t x6 f6;
        by_key_pair = (str_eq_iff x2 "SNOWFLAKE_JWT").0 (require-eq-ok _ _ jwt);
      }),
    )

pub build_connector_arguments-Asks :
    (is_blank : String → Bool) (crypto : Cryptography) (read_key : String → Result Bytes)
    (t : Table) (p : SnowflakeProfile) (a : ConnectorArguments)
    → IsProfile is_blank t p
    → build_connector_arguments crypto read_key p ≡ ok a
    → Asks is_blank crypto read_key t a
unfolding build_connector_arguments
build_connector_arguments-Asks is_blank crypto read_key t p a q h =
    let (key, read, last) =
      bind_returned (load_private_key crypto (read_key p.private_key_path)) _ a h in
    let same = ok_injective _ a last in
    rw (← same) (record {
      account = q.account;
      user = q.user;
      database = q.database;
      warehouse = q.warehouse;
      role = q.role;
      authenticator = rw q.by_key_pair at q.authenticator;
      by_key_pair = q.by_key_pair;
      key_path = p.private_key_path;
      private_key_path = q.private_key_path;
      private_key = read;
      one_thread = refl;
      login = refl;
      network = refl;
      socket = refl;
      abort = refl;
      queued = refl;
      statement = refl;
    })
