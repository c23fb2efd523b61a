-- ===== src/Examples/Wizard.antt =====
-- A server of three extensions, the first number of which is taken, and the second of which an attempt
-- that timed out has made; then two servers that are connected, and two extensions that are deleted.
use swarmdialer.Prelude.{
  OnSome, ℕ, zero, suc, ◌+◌, ◌*◌, ◌≤◌, ◌≡◌, refl, ap, arith, Bool, true, false, not, Option, none,
  some, List, [], ◌∷◌, length, map, count_if, ◌==◌, if◌then◌else◌, All, ◌⊎◌,
}
use swarmdialer.Prelude.Int.{pos}
use swarmdialer.Retry.Secret.{secret_length, required, generate_secret}
use swarmdialer.Retry.Secret.Rule.{how_many, generate_secret_lem}
use swarmdialer.Text.{Bytes, bytes, all_digits}
use swarmdialer.Wizard.Batch.{ext_base}
use swarmdialer.Wizard.Connect.{Side, Calls, ConnectProgress, connect_servers}
use swarmdialer.Wizard.Ends.{Ends}
use swarmdialer.Wizard.Extensions.{provision_extensions}
use swarmdialer.Wizard.Items.{OnOk, ids, requested, times}
use swarmdialer.Wizard.Linked.{IsTold, IsLinked, connect_servers-IsLinked}
use swarmdialer.Wizard.Names.{did_for_10_digit_route}
use swarmdialer.Wizard.Outcome.{IsAsked, provision_extensions-IsAsked, provision_extensions-Ends}
use swarmdialer.Wizard.Reset.{Instance, Replies}
use swarmdialer.Wizard.Reset.Workers.{
  Deleting, begin, DeleteStep, receive, complete, DeleteRun, here, next, steps, IsOver, failures,
  delete_extensions_lem,
}
use swarmdialer.Wizard.Rounds.{IsAnswered}
use swarmdialer.Wizard.Server.{Answers, Params, Progress}
use swarmdialer.Wizard.Shapes.{matches_route, did_for_10_digit_route_lem}
use swarmdialer.Wizard.{ExtensionCreate, BatchItem, Existing}

abbrev message : ℕ → Option Bytes
message number =
    if number == 1000
    then some (bytes "pbxware v2 api error 400: 1000 is reserved by (Extension) Operator")
    else (if number == 1001
        then some
            (bytes "pbxware v2 api error 400: 1001 is reserved by (Extension) SwarmDialer 1001")
        else none)

abbrev item : ExtensionCreate → BatchItem
item e = record { id = e.number; extension_id = e.number + 7; err = message e.number }

abbrev post : ℕ → ℕ → List ExtensionCreate → Option (List BatchItem)
post zero zero batch = none
post _ _ batch = some (map item batch)

items-ids : (batch : List ExtensionCreate) → ids (map item batch) ≡ requested batch
items-ids [] = refl
items-ids (e ∷ es) = ap (λ ns. e.number ∷ ns) (items-ids es)

items-length : (batch : List ExtensionCreate) → length (map item batch) ≡ length batch
items-length [] = refl
items-length (e ∷ es) = ap suc (items-length es)

items-IsAnswered : (batch : List ExtensionCreate) → IsAnswered batch (map item batch)
items-IsAnswered batch = ((λ k. ap (times k) (items-ids batch)), items-length batch)

answered :
    (round attempt : ℕ) (batch : List ExtensionCreate)
    → OnSome (IsAnswered batch) (post round attempt batch)
answered zero zero batch = tt
answered zero (suc attempt) batch = items-IsAnswered batch
answered (suc round) attempt batch = items-IsAnswered batch

abbrev over : ℕ → Bool
over round = false

abbrev secrets : ℕ → Option Bytes
secrets draw = some (bytes "Aa1%Aa1%Aa1%")

abbrev read_back : ℕ → ℕ → Option Existing
read_back read number =
    some (record { id = number; username = 200 * 10000 + number; secret = bytes "Old1%" })

provision_extensions-IsAsked_example :
    OnOk
      (IsAsked (ext_base 4) 3)
      (provision_extensions over secrets read_back post (λ r a. 1) (λ r a. false) 3 1000 60 4)
provision_extensions-IsAsked_example =
    provision_extensions-IsAsked over secrets read_back post (λ r a. 1) (λ r a. false) 3 1000 60
      answered 4

provision_extensions-Ends_example :
    Ends (provision_extensions over secrets read_back post (λ r a. 1) (λ r a. false) 3 1000 60 4)
provision_extensions-Ends_example =
    provision_extensions-Ends over secrets read_back post (λ r a. 1) (λ r a. false) 3 1000 60
      answered 4

abbrev params : Params
params = record {
  base_url = bytes "https://10.1.100.208/";
  extension_count = 3;
  tenant_code = bytes "200";
  ext_length = 4;
  country = bytes "869";
  channel_limit = 1000;
  max_wait = 60;
}

abbrev answers : Answers
answers = record {
  license = some (bytes "Multi-Tenant");
  local_ip = some (bytes "10.1.100.5");
  before = some (record { use_ram_disk = bytes "no"; ram_disk_size = 64 });
  patch_system = true;
  packages = some [];
  put_package = λ id. true;
  post_package = some 3;
  create_tenant = λ plan country code. none;
  tenants = some (record { id = 1; code = pos 200 } ∷ record { id = 9; code = pos 200 } ∷ []);
  system_ext_length = some (pos 4);
  over = over;
  secret = secrets;
  read_back = λ org. read_back;
  post = λ org. post;
  took = λ r a. 1;
  stopped = λ r a. false;
  registrable = λ exts. none;
}

abbrev fresh_progress : Progress
fresh_progress = record {
  total = 0;
  message = "";
  done = false;
  err = none;
  ram_disk_notice = false;
}

did_for_10_digit_route_lem_example :
    (matches_route (did_for_10_digit_route (bytes "200") (bytes "1000")) ≡ true)
    × (did_for_10_digit_route (bytes "200") (bytes "1000")
          ≡ did_for_10_digit_route (bytes "200") (bytes "1001")
        → bytes "1000" ≡ bytes "1001")
unfolding all_digits
did_for_10_digit_route_lem_example =
    did_for_10_digit_route_lem (bytes "200") (bytes "1000") (bytes "1001") refl (omega arith) refl

abbrev side : Bytes → Bytes → Bytes → Side
side id name code = record {
  id = id;
  name = name;
  edition = bytes "Multi-Tenant";
  sip_host = bytes "10.1.100.208:5060";
  tenant_id = 9;
  tenant_code = code;
  extensions = bytes "1001" ∷ bytes "1002" ∷ [];
  trunk_id = 0;
  peer_server_id = [];
  dids = [];
}

abbrev one : Side
one = side (bytes "srv-1") (bytes "MT One") (bytes "200")

abbrev two : Side
two = side (bytes "srv-2") (bytes "MT Two") (bytes "201")

abbrev calls : Calls
calls = record {
  secret_a = some (bytes "Aa1%Aa1%Aa1%");
  secret_b = some (bytes "Bb1%Bb1%Bb1%");
  provider = λ id. some 5;
  add_trunk = λ id p. some 11;
  set_default = λ id tenant trunk. true;
  add_did = λ id tenant trunk did ext. true;
}

abbrev begun : ConnectProgress
begun = record { stage = ""; total = 0; created = 0; done = false; err = none }

connect_servers-IsLinked_example :
    IsTold (connect_servers calls one two begun)
    × IsLinked one two begun (connect_servers calls one two begun)
connect_servers-IsLinked_example = connect_servers-IsLinked calls one two begun refl refl

-- The second extension cannot be deleted.
abbrev deleted : ℕ → Bool
deleted id = id == 5

abbrev both : List ℕ
both = 5 ∷ 6 ∷ []

abbrev taken_one : Deleting
taken_one = record { to_send = 6 ∷ []; held = 5 ∷ []; finished = 0; warnings = []; seen = [] }

abbrev taken_both : Deleting
taken_both = record { to_send = []; held = 6 ∷ 5 ∷ []; finished = 0; warnings = []; seen = [] }

whole_run : (d : Deleting) × DeleteRun deleted (begin both) d
unfolding begin
whole_run = (
  _,
  next
      (next
        (next (next here (receive (begin both) 5 (6 ∷ []) refl (omega arith)))
          (receive taken_one 6 [] refl (omega arith)))
        (complete taken_both (6 ∷ []) 5 [] refl))
      (complete (record { to_send = []; held = 6 ∷ []; finished = 1; warnings = []; seen = 5 ∷ [] })
        [] 6 [] refl),
)

delete_extensions_lem_example :
    (steps deleted both whole_run.1 ≤ 2 * length both)
    × (IsOver deleted both whole_run.0 ⊎ ((e : Deleting) × DeleteStep deleted whole_run.0 e))
    × (IsOver deleted both whole_run.0
        → ((p : ℕ → Bool) → count_if p whole_run.0.seen ≡ count_if p both)
          × (whole_run.0.finished ≡ length both)
          × (whole_run.0.warnings ≡ failures deleted whole_run.0.seen)
          × (length whole_run.0.warnings ≡ count_if (λ e. not (deleted e)) both))
delete_extensions_lem_example = delete_extensions_lem deleted both whole_run.1

generate_secret_lem_example :
    (s : Bytes) × (generate_secret (λ bound i. some 0) 0 ≡ some s)
    × (length s ≡ secret_length)
    × All (λ class. 1 ≤ how_many class s) required
generate_secret_lem_example =
    generate_secret_lem (λ bound i. some 0) 0 (λ bound i above. (0, refl, above))

abbrev replies : Replies
replies = record {
  delete_trunk = λ id. true;
  delete_tenant = λ id. true;
  tenant_gone = λ id. true;
  packages = some [];
  delete_package = λ id. false;
  delete_extension = λ id attempt. false;
}

abbrev standalone : Instance
standalone = record {
  trunk_id = 11;
  edition = bytes "Business";
  tenant_id = 0;
  extensions = 5 ∷ [];
}
