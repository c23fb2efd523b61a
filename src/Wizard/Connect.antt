-- ===== src/Wizard/Connect.antt =====
-- internal/wizard/connect.go: `ConnectServers`, with the answers to its calls as a record. The wait at the
-- end, for PBXware to load the trunks, is left out.
use swarmdialer.Prelude.{
  ℕ, suc, ◌+◌, Bool, true, Option, none, some, List, [], ◌∷◌, length, ◌==◌, if◌then◌else◌, String,
}
use swarmdialer.Text.{Bytes}
use swarmdialer.Wizard.Names.{host_only, trunk_name, trunk_username, did_for_10_digit_route}
use swarmdialer.Wizard.Server.{is_multi_tenant_edition}

-- What is read and written of a store.Server; an extension is its number.
pub record Side : Type 0 where
  pub id : Bytes
  pub name : Bytes
  pub edition : Bytes
  pub sip_host : Bytes
  pub tenant_id : ℕ
  pub tenant_code : Bytes
  pub extensions : List Bytes
  pub trunk_id : ℕ
  pub peer_server_id : Bytes
  pub dids : List (Bytes × Bytes)

-- pbxware.TrunkParams, without its constants
pub record TrunkParams : Type 0 where
  pub name : Bytes
  pub provider_id : ℕ
  pub host : Bytes
  pub username : Bytes
  pub secret : Bytes
  pub peer_host : Bytes
  pub peer_secret : Bytes

pub data ConnectFailure : Type 0 where
  no_credentials : ConnectFailure
  no_provider no_trunk no_default_trunk no_did : Bytes → ConnectFailure

-- The answers to the calls, none or false if they fail. An API is told apart by the server's id.
pub record Calls : Type 0 where
  pub secret_a : Option Bytes
  pub secret_b : Option Bytes
  pub provider : Bytes → Option ℕ
  pub add_trunk : Bytes → TrunkParams → Option ℕ
  pub set_default : Bytes → ℕ → ℕ → Bool
  pub add_did : Bytes → ℕ → ℕ → Bytes → Bytes → Bool

pub record ConnectProgress : Type 0 where
  pub stage : String
  pub total : ℕ
  pub created : ℕ
  pub done : Bool
  pub err : Option ConnectFailure

pub record Connected : Type 0 where
  pub progress : ConnectProgress
  pub result : Option ConnectFailure  -- none for success
  pub a : Side
  pub b : Side

abbrev pub stopped : ConnectFailure → ConnectProgress → Side → Side → Connected
stopped e pr a b = record {
  progress = record pr { done = true; err = some e };
  result = some e;
  a = a;
  b = b;
}

-- What is kept of both sides' DIDs, and how the call returns.
unfoldable pub keep_dids :
    Side
    → Side
    → ConnectProgress × Option (List (Bytes × Bytes))
    → ConnectProgress × Option (List (Bytes × Bytes))
    → Connected
keep_dids a b (pr_a, none) second = stopped (no_did a.id) pr_a a b
keep_dids a b (pr_a, some ms) (pr_b, none) = stopped (no_did b.id) pr_b (record a { dids = ms }) b
keep_dids a b (pr_a, some ms) (pr_b, some ns) = record {
  progress = record pr_b { stage = "settling"; done = true };
  result = none;
  a = record a { dids = ms };
  b = record b { dids = ns };
}

module _ (w : Calls) where
  -- The loop of `addDIDsFor`: the progress, and the mappings if every DID was made.
  unfoldable pub add_dids_loop :
      Bytes
      → Bytes
      → ℕ
      → ℕ
      → List Bytes
      → ConnectProgress
      → ConnectProgress × Option (List (Bytes × Bytes))
  add_dids_loop id code tenant trunk [] pr = (pr, some [])
  add_dids_loop id code tenant trunk (ext ∷ exts) pr =
      let did = did_for_10_digit_route code ext in
      let (later, rest) =
        add_dids_loop id code tenant trunk exts (record pr { created = suc pr.created }) in
      if w.add_did id tenant trunk did ext
      then (later, elim rest [ none ↦ none | some ms ↦ some ((did, ext) ∷ ms) ])
      else (pr, none)

  unfoldable pub add_dids_for :
      Side → ConnectProgress → ConnectProgress × Option (List (Bytes × Bytes))
  unfolding add_dids_loop
  add_dids_for srv pr =
      add_dids_loop srv.id srv.tenant_code (if srv.tenant_id == 0 then 1 else srv.tenant_id)
        srv.trunk_id srv.extensions pr

  unfoldable pub add_all_dids : Side → Side → ConnectProgress → Connected
  unfolding add_dids_for keep_dids
  add_all_dids a b pr =
      let first =
        add_dids_for a
          (record pr { stage = "dids"; total = length a.extensions + length b.extensions }) in
      keep_dids a b first (add_dids_for b first.0)

  -- Whether a side needs no default trunk, or got it.
  unfoldable pub default_trunk : Side → Bool
  unfolding is_multi_tenant_edition
  default_trunk srv =
      if is_multi_tenant_edition srv.edition
      then w.set_default srv.id srv.tenant_id srv.trunk_id
      else true

  unfoldable pub set_defaults : Side → Side → ConnectProgress → Connected
  unfolding default_trunk add_all_dids
  set_defaults a b progress =
      let pr : ConnectProgress = record progress { stage = "default-trunk" } in
      if default_trunk a
      then (if default_trunk b then add_all_dids a b pr else stopped (no_default_trunk b.id) pr a b)
      else stopped (no_default_trunk a.id) pr a b

  -- The trunk on `srv`, to its peer.
  abbrev pub trunk_params : Side → Side → ℕ → Bytes → Bytes → TrunkParams
  trunk_params srv peer provider cred peer_cred = record {
    name = trunk_name peer.name;
    provider_id = provider;
    host = host_only srv.sip_host;
    username = trunk_username srv.id;
    secret = cred;
    peer_host = host_only peer.sip_host;
    peer_secret = peer_cred;
  }

  unfoldable pub add_trunks : Side → Side → Bytes → Bytes → ℕ → ℕ → ConnectProgress → Connected
  unfolding set_defaults
  add_trunks a b cred_a cred_b prov_a prov_b pr =
      elim (w.add_trunk a.id (trunk_params a b prov_a cred_a cred_b)) [
        | none ↦ stopped (no_trunk a.id) pr a b
        | some t ↦ elim (w.add_trunk b.id (trunk_params b a prov_b cred_b cred_a)) [
          | none ↦ stopped (no_trunk b.id) pr a b
          | some u ↦
              set_defaults (record a { trunk_id = t; peer_server_id = b.id })
                (record b { trunk_id = u; peer_server_id = a.id }) pr
        ]
      ]

  -- An error of the credentials returns without a word to the progress.
  unfoldable pub connect_servers : Side → Side → ConnectProgress → Connected
  unfolding add_trunks
  connect_servers a b progress =
      let pr : ConnectProgress = record progress { stage = "trunk" } in
      let silent : Connected = record {
        progress = pr;
        result = some no_credentials;
        a = a;
        b = b;
      } in
      elim w.secret_a [
        | none ↦ silent
        | some cred_a ↦ elim w.secret_b [
          | none ↦ silent
          | some cred_b ↦ elim (w.provider a.id) [
            | none ↦ stopped (no_provider a.id) pr a b
            | some prov_a ↦ elim (w.provider b.id) [
              | none ↦ stopped (no_provider b.id) pr a b
              | some prov_b ↦ add_trunks a b cred_a cred_b prov_a prov_b pr
            ]
          ]
        ]
      ]
