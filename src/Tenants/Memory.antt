-- ===== src/Tenants/Memory.antt =====
-- A server in memory that meets the laws of the interface.
use accurack_software_backen.Common.{String, Bool, true, false, none, some, ◌≡◌, refl}
use accurack_software_backen.Effect.{database, Result, ok, err, pure}
use accurack_software_backen.Tenants.Server.{View, put, Server}

abbrev pub creates : Bool → String → View → Result View
creates true name w = err (database "database already exists")
creates false name w = ok (record w { databases = put name true w.databases })

pub creates-ok :
    (b : Bool) (name : String) (w w' : View)
    → w.databases name ≡ b
    → creates b name w ≡ ok w'
    → (w.databases name ≡ false) × (w' ≡ record w { databases = put name true w.databases })
creates-ok true name w w' h e = cc e
creates-ok false name w w' h e = (h, cc e)

pub ok_back : {A : Type 0} (a b : A) → ok a ≡ ok b → b ≡ a
ok_back a b e = cc e

abbrev pub memory_server : Server View
memory_server = record {
  view = λ w. w;
  create_database = λ name w. creates (w.databases name) name w;
  create_role = λ user password name w. ok (record w { roles = put user true w.roles });
  drop_database = λ name w. ok (record w { databases = put name false w.databases });
  drop_role = λ user w. ok (record w { roles = put user false w.roles });
  store_credentials =
      λ tenant c w. ok (record w { credentials = put tenant (some c) w.credentials });
  select_credentials = λ tenant w. ok (w.credentials tenant);
  remove_credentials = λ tenant w. ok (record w { credentials = put tenant none w.credentials });
  initialize_master = pure tt;
  terminate = λ name. pure tt;
  end_pool = λ c. pure tt;
  grant_schema = λ name user. pure tt;
  initialize_schema = λ c. pure tt;
  insert_client = λ c id. pure tt;
  insert_user = λ c id. pure tt;
  create_database-ok = λ name w w' e. creates-ok (w.databases name) name w w' refl e;
  create_role-ok = λ user password name w w' e. ok_back _ _ e;
  drop_database-ok = λ name w w' e. ok_back _ _ e;
  drop_role-ok = λ user w w' e. ok_back _ _ e;
  store_credentials-ok = λ tenant c w w' e. ok_back _ _ e;
  select_credentials-ok = λ tenant w found e. ok_back _ _ e;
  remove_credentials-ok = λ tenant w w' e. ok_back _ _ e;
  initialize_master-inside = λ w. refl;
  terminate-inside = λ name w. refl;
  end_pool-inside = λ c w. refl;
  grant_schema-inside = λ name user w. refl;
  initialize_schema-inside = λ c w. refl;
  insert_client-inside = λ c id w. refl;
  insert_user-inside = λ c id w. refl;
}
