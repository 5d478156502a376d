-- ===== src/Tenants/Server.antt =====
-- The PostgreSQL server that src/database/multi-tenant.service.ts sends statements to. It is a service,
-- so it is an interface: statements that may fail, and what one that answers has done to the three
-- things the code relies on, which are the databases, the roles and the rows of tenant_credentials.
use accurack_software_backen.Common.{
  String, Bool, true, false, Option, none, some, ◌==◌, ◌≡◌, if◌then◌else◌,
}
use accurack_software_backen.Effect.{Result, ok, Action}

pub record Credentials : Type 0 where
  pub database_name : String
  pub user_name : String
  pub password : String

pub record View : Type 0 where
  pub databases : String → Bool
  pub roles : String → Bool
  pub credentials : String → Option Credentials

abbrev pub put : {A : Type 0} → String → A → (String → A) → String → A
put k a f x = if x == k then a else f x

-- Work inside one database, which may fail half way.
abbrev pub IsInside : {S : Type 0} → (S → View) → Action S (Unit {0}) → Type 0
IsInside view work = (s : _) → view (work s).1 ≡ view s

pub record Server (S : Type 0) : Type 0 where
  pub view : S → View
  -- `CREATE DATABASE`, which fails where it exists, and `CREATE USER` with its grants
  pub create_database : String → S → Result S
  pub create_role : String → String → String → S → Result S
  -- `DROP DATABASE IF EXISTS`, `DROP USER IF EXISTS`
  pub drop_database : String → S → Result S
  pub drop_role : String → S → Result S
  -- the rows of tenant_credentials: `INSERT ... ON CONFLICT DO UPDATE`, `SELECT`, `DELETE`
  pub store_credentials : String → Credentials → S → Result S
  pub select_credentials : String → S → Result (Option Credentials)
  pub remove_credentials : String → S → Result S
  -- `CREATE TABLE tenant_credentials` where it does not exist
  pub initialize_master : Action S (Unit {0})
  -- `pg_terminate_backend`, and the end of a pool
  pub terminate : String → Action S (Unit {0})
  pub end_pool : Credentials → Action S (Unit {0})
  -- the grants, the schema and the first rows of a database
  pub grant_schema : String → String → Action S (Unit {0})
  pub initialize_schema : Credentials → Action S (Unit {0})
  pub insert_client : Credentials → String → Action S (Unit {0})
  pub insert_user : Credentials → String → Action S (Unit {0})
  pub create_database-ok :
      (name : String) (s s' : S)
      → create_database name s ≡ ok s'
      → ((view s).databases name ≡ false)
        × (view s' ≡ record (view s) { databases = put name true (view s).databases })
  pub create_role-ok :
      (user password name : String) (s s' : S)
      → create_role user password name s ≡ ok s'
      → view s' ≡ record (view s) { roles = put user true (view s).roles }
  pub drop_database-ok :
      (name : String) (s s' : S)
      → drop_database name s ≡ ok s'
      → view s' ≡ record (view s) { databases = put name false (view s).databases }
  pub drop_role-ok :
      (user : String) (s s' : S)
      → drop_role user s ≡ ok s'
      → view s' ≡ record (view s) { roles = put user false (view s).roles }
  pub store_credentials-ok :
      (tenant : String) (c : Credentials) (s s' : S)
      → store_credentials tenant c s ≡ ok s'
      → view s' ≡ record (view s) { credentials = put tenant (some c) (view s).credentials }
  pub select_credentials-ok :
      (tenant : String) (s : S) (found : Option Credentials)
      → select_credentials tenant s ≡ ok found
      → found ≡ (view s).credentials tenant
  pub remove_credentials-ok :
      (tenant : String) (s s' : S)
      → remove_credentials tenant s ≡ ok s'
      → view s' ≡ record (view s) { credentials = put tenant none (view s).credentials }
  pub initialize_master-inside : IsInside view initialize_master
  pub terminate-inside : (name : String) → IsInside view (terminate name)
  pub end_pool-inside : (c : Credentials) → IsInside view (end_pool c)
  pub grant_schema-inside : (name user : String) → IsInside view (grant_schema name user)
  pub initialize_schema-inside : (c : Credentials) → IsInside view (initialize_schema c)
  pub insert_client-inside : (c : Credentials) (id : String) → IsInside view (insert_client c id)
  pub insert_user-inside : (c : Credentials) (id : String) → IsInside view (insert_user c id)
