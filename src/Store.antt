-- ===== src/Store.antt =====
-- internal/store/store.go: the configuration and the file that it is kept in. The config's pointers are
-- values here: a caller is taken to change a copy of what it gets, as the comments of the source ask.
-- The JSON codec is a parameter, and each save is told how the file system answers.
use swarmdialer.Prelude.{
  ℕ, zero, suc, ◌≡◌, ◌≢◌, refl, sym, ◌∙◌, ap, String, ◌==s◌, Bool, true, false, Option, none, some,
  List, [], ◌∷◌, ◌++◌, if◌then◌else◌, ◌⊎◌, inl, inr,
}
pub mod Servers
pub mod File

pub record DidMapping : Type 0 where
  pub did : String
  pub ext : String

-- pbxware.ProvisionedExtension
pub record ProvisionedExtension : Type 0 where
  pub extension_id : ℕ
  pub ext : String
  pub username : String
  pub secret : String

pub record Server : Type 0 where
  pub id : String
  pub name : String
  pub base_url : String
  pub api_key : String
  pub api_key_v2 : String
  pub edition : String
  pub sip_host : String
  pub local_ip : String
  pub tenant_id : ℕ
  pub tenant_code : String
  pub extensions : List ProvisionedExtension
  pub trunk_id : ℕ
  pub peer_server_id : String
  pub dids : List DidMapping

pub record VpsRef : Type 0 where
  pub id : ℕ
  pub uuid : String
  pub name : String

pub record Serverware : Type 0 where
  pub controller_url : String
  pub api_key : String
  pub host_id : ℕ
  pub host_uuid : String
  pub host_name : String
  pub pbxware_vps : List (String × VpsRef)
  pub swarmdialer_vps : VpsRef

pub record DtCollector : Type 0 where
  pub url : String
  pub key : String

pub record Config : Type 0 where
  pub servers : List Server
  pub serverware : Option Serverware
  pub dt_collector : Option DtCollector
  pub wizard_completed : Option Bool

abbrev pub empty_config : Config
empty_config = record {
  servers = [];
  serverware = none;
  dt_collector = none;
  wizard_completed = none;
}

-- `GetServer`: the first server with the id.
unfoldable pub get_server : String → List Server → Option Server
get_server id [] = none
get_server id (s ∷ ss) = let rest = get_server id ss in if s.id ==s id then some s else rest

-- The loop of `UpdateServer`; none if no server has the id.
unfoldable pub replace_server : Server → List Server → Option (List Server)
replace_server srv [] = none
replace_server srv (s ∷ ss) =
    let rest = replace_server srv ss in
    if s.id ==s srv.id then some (srv ∷ ss) else elim rest [ some ts ↦ some (s ∷ ts) | none ↦ none ]

-- The loop of `RemoveServer`.
unfoldable pub delete_server : String → List Server → Option (List Server)
delete_server id [] = none
delete_server id (s ∷ ss) =
    let rest = delete_server id ss in
    if s.id ==s id then some ss else elim rest [ some ts ↦ some (s ∷ ts) | none ↦ none ]

-- `WizardCompleted`
unfoldable pub wizard_completed : Config → Bool
wizard_completed c = elim c.servers [
  | [] ↦ false
  | _ ∷ _ ↦ elim c.wizard_completed [ none ↦ true | some b ↦ b ]
]

-- `DTCollector`
unfoldable pub dt_collector : Config → DtCollector
dt_collector c = elim c.dt_collector [ none ↦ record { url = ""; key = "" } | some dt ↦ dt ]

-- The calls that change the config.
pub data Change : Type 0 where
  add_server update_server : Server → Change
  remove_server : String → Change
  set_serverware : Option Serverware → Change
  set_dt_collector : DtCollector → Change
  set_wizard_completed : Bool → Change

abbrev pub set_servers : Config → Option (List Server) → Option Config
set_servers c none = none
set_servers c (some ss) = some (record c { servers = ss })

-- The config that a call saves; none if it fails before ("no server with id").
unfoldable pub changed : Change → Config → Option Config
unfolding replace_server delete_server
changed (add_server srv) c = some (record c { servers = c.servers ++ srv ∷ [] })
changed (update_server srv) c = set_servers c (replace_server srv c.servers)
changed (remove_server id) c = set_servers c (delete_server id c.servers)
changed (set_serverware sw) c = some (record c { serverware = sw })
changed (set_dt_collector dt) c = some (record c { dt_collector = some dt })
changed (set_wizard_completed done) c = some (record c { wizard_completed = some done })

-- How the file system answers a save.
pub data Saving : Type 0 where
  works write_fails rename_fails : Saving

pub data Outcome : Type 0 where
  saved no_server not_saved : Outcome

-- The store, and what `path` and `path.tmp` hold.
pub record Store (Text : Type 0) : Type 0 where
  pub cfg : Config
  pub file : Option Text
  pub tmp : Option Text

pub data ReadError : Type 0 where
  cannot_read cannot_parse : ReadError

module _ {Text : Type 0} (encode : Config → Text) where
  -- `save`; a write that fails leaves some text in the temporary file.
  unfoldable pub save : Saving → Text → Store Text → Store Text × Outcome
  save works junk st = (record st { file = some (encode st.cfg); tmp = none }, saved)
  save write_fails junk st = (record st { tmp = some junk }, not_saved)
  save rename_fails junk st = (record st { tmp = some (encode st.cfg) }, not_saved)

  unfoldable pub change : Saving → Text → Change → Store Text → Store Text × Outcome
  unfolding save changed
  change answer junk ch st = elim (changed ch st.cfg) [
    | none ↦ (st, no_server)
    | some c ↦ save answer junk (record st { cfg = c })
  ]

-- `Open`: a file that is not there is an empty config.
unfoldable pub open_store :
    {Text : Type 0}
    → (Text → Option Config)
    → Bool
    → Option Text
    → Option Text
    → (Store Text) ⊎ ReadError
open_store decode can_read tmp none = inl (record { cfg = empty_config; file = none; tmp = tmp })
open_store decode false tmp (some text) = inr cannot_read
open_store decode true tmp (some text) = elim (decode text) [
  | none ↦ inr cannot_parse
  | some c ↦ inl (record { cfg = c; file = some text; tmp = tmp })
]
