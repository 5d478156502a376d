-- ===== src/Tenants/Events.antt =====
-- Runs of src/database/multi-tenant.service.ts and src/tenant: databases made and deleted, connections
-- and requests served, in any order, each call of which returns or throws.
use accurack_software_backen.Common.{String, Option, List, [], ◌∷◌}
use accurack_software_backen.Tenants.Server.{Server}
use accurack_software_backen.Tenants.Databases.{
  Host, create_tenant_database, delete_tenant_database, get_tenant_connection,
}
use accurack_software_backen.Tenants.Context.{Request, get_prisma_client, disconnect_all}

pub data Event : Type 0 where
  create : String → Option String → Option String → String → Event
  delete connect : String → Event
  serve : Request → Event
  disconnect : Event

module _ {S : Type 0} (v : Server S) (host port : String) where
  unfoldable pub perform : Event → Host S → Host S
  perform (create t client user password) h = (create_tenant_database v t client user password h).1
  perform (delete t) h = (delete_tenant_database v t h).1
  perform (connect t) h = (get_tenant_connection v t h).1
  perform (serve r) h = (get_prisma_client v host port r h).1
  perform disconnect h = (disconnect_all h).1

  unfoldable pub run : List Event → Host S → Host S
  run [] h = h
  run (e ∷ es) h = run es (perform e h)
