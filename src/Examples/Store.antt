-- ===== src/Examples/Store.antt =====
-- A config with one server, kept in a file whose text is the config itself; and a log of a label with a
-- path in it.
use swarmdialer.Prelude.{◌≡◌, ◌↔◌, refl, true, none, some, List, [], ◌∷◌}
use swarmdialer.Text.{Bytes, bytes}
use swarmdialer.Store.{
  Server, Config, empty_config, get_server, Change, add_server, remove_server, set_wizard_completed,
  changed, Saving, works, rename_fails, Store, open_store,
}
use swarmdialer.Store.Servers.{Refines, changed-Refines, changed-none_iff, needs}
use swarmdialer.Store.File.{OnDisk, change_all, last_saved, change_all-OnDisk}
use swarmdialer.Logstore.{remote_logs, Files, create_batch_log, read, delete}
use swarmdialer.Logstore.Names.{create_batch_log-read}

abbrev server : Server
server = record {
  id = "mt";
  name = "PBXwareMT";
  base_url = "";
  api_key = "";
  api_key_v2 = "";
  edition = "mt";
  sip_host = "10.0.0.2:5060";
  local_ip = "10.0.0.1";
  tenant_id = 4;
  tenant_code = "204";
  extensions = [];
  trunk_id = 0;
  peer_server_id = "";
  dids = [];
}

abbrev config : Config
config = record empty_config { servers = server ∷ record server { id = "cc" } ∷ [] }

abbrev without : Config
without = record empty_config { servers = record server { id = "cc" } ∷ [] }

changed-Refines_example : Refines (remove_server "mt") config without
unfolding changed get_server
changed-Refines_example =
    changed-Refines (remove_server "mt") config without (refl, (refl, tt)) tt refl

changed-none_iff_example :
    (changed (remove_server "xx") config ≡ none)
    ↔ ((id : _) × (needs (remove_server "xx") ≡ some id) × (get_server id config.servers ≡ none))
changed-none_iff_example = changed-none_iff (remove_server "xx") config

abbrev store : Store Config
store = record { cfg = empty_config; file = none; tmp = none }

abbrev changes : List (Saving × Config × Change)
changes =
    (works, config, add_server server)
    ∷ (rename_fails, config, set_wizard_completed true)
    ∷ (works, config, remove_server "yy")
    ∷ []

change_all-OnDisk_example :
    OnDisk
      (λ c. some c)
      (change_all (λ c. c) changes store)
      (last_saved (λ c. c) changes store empty_config)
unfolding open_store
change_all-OnDisk_example =
    change_all-OnDisk (λ c. c) (λ c. some c) (λ c. refl) changes store empty_config refl

abbrev label : Bytes
label = bytes "../../etc/passwd"

abbrev created : Bytes × Files
created =
    create_batch_log (bytes "logs") remote_logs label (bytes "20260102-030405") 123_456
      (bytes "done") (λ p. none)

create_batch_log-read_example :
    (read (bytes "logs") remote_logs created.0 created.1 ≡ some (bytes "done"))
    × (files : Files) × (delete (bytes "logs") remote_logs created.0 created.1 ≡ some files)
    × (read (bytes "logs") remote_logs created.0 files ≡ none)
create_batch_log-read_example =
    create_batch_log-read (bytes "logs") remote_logs label (bytes "20260102-030405") 123_456
      (bytes "done") (λ p. none)
      (
        refl,
        (
          refl,
          (
            refl,
            (
              refl,
              (
                refl,
                (refl, (refl, (refl, (refl, (refl, (refl, (refl, (refl, (refl, (refl, tt)))))))))),
              ),
            ),
          ),
        ),
      )
