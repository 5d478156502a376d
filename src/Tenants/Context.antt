-- ===== src/Tenants/Context.antt =====
-- src/tenant/tenant-context.service.ts and src/tenant/prisma-tenant-cache.ts: the database that serves a
-- request. Host and port of the server are settings.
use accurack_software_backen.Common.{
  String, Bool, Option, none, some, [], ◌∷◌, ◌||◌, ◌==◌, has_text, concat, if◌then◌else◌,
}
use accurack_software_backen.Effect.{Result, ok, err, Action, ◌>>=◌, ◌>>◌, pure, query, write}
use accurack_software_backen.Tenants.Server.{Credentials, Server}
use accurack_software_backen.Tenants.Databases.{Host, entry, read}

pub record Request : Type 0 where
  pub url : String
  -- `request.user?.clientId`
  pub client_id : Option String
  pub use_master_db : Bool

pub data Client : Type 0 where
  master : Client
  -- a client of a tenant, with its address
  tenant : String → Client

-- `user?.clientId` where it is truthy
abbrev pub tenant_of : Request → Option String
tenant_of r = elim r.client_id [ none ↦ none | some t ↦ if t == "" then none else some t ]

abbrev pub is_master_url : String → Bool
is_master_url url =
    has_text url "/tenant"
    || has_text url "/auth"
    || has_text url "/health"
    || has_text url "/swagger"

-- `extractTenantContext`: the tenant whose database is to serve the request, if not the master's
abbrev pub tenant_context : Request → Option String
tenant_context r = if is_master_url r.url || r.use_master_db then none else tenant_of r

abbrev pub address : String → String → Credentials → String
address host port c = concat (
    "postgresql://" ∷ c.user_name ∷ ":" ∷ c.password ∷ "@" ∷ host ∷ ":" ∷ port ∷ "/"
    ∷ c.database_name ∷ [])

module _ {S : Type 0} where
  abbrev pub client_of : String → Host S → Result (Option String)
  client_of t h = ok (entry t h.clients)

  abbrev pub cached : String → String → Option String → Action (Host S) String
  cached t url (some known) = pure known
  cached t url none = write (λ h. ok (record h { clients = (t, url) ∷ h.clients })) >> pure url

  unfoldable pub get_tenant_prisma_client : String → String → Action (Host S) String
  get_tenant_prisma_client t url = query (client_of t) >>= cached t url

  unfoldable pub disconnect_all : Action (Host S) (Unit {0})
  disconnect_all = write (λ h. ok (record h { clients = [] }))

  -- `catch`: the error is logged and the master database serves
  abbrev pub or_master : Result Client × Host S → Result Client × Host S
  or_master (ok c, h) = (ok c, h)
  or_master (err e, h) = (ok master, h)

module _ {S : Type 0} (v : Server S) (host port : String) where
  open v use {select_credentials}

  abbrev pub as_tenant : String → Action (Host S) Client
  as_tenant url = pure (tenant url)

  abbrev pub with_credentials : String → Option Credentials → Action (Host S) Client
  with_credentials t none = pure master
  with_credentials t (some c) = get_tenant_prisma_client t (address host port c) >>= as_tenant

  abbrev pub look_up_client : String → Action (Host S) Client
  look_up_client t = read (select_credentials t) >>= with_credentials t

  abbrev pub client_for : Option String → Action (Host S) Client
  client_for none = pure master
  client_for (some t) = λ h. or_master (look_up_client t h)

  unfoldable pub get_prisma_client : Request → Action (Host S) Client
  get_prisma_client r = client_for (tenant_context r)
