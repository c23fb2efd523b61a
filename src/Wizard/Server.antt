-- ===== src/Wizard/Server.antt =====
-- internal/wizard/wizard.go: `Provision`, step by step, with what it calls of internal/pbxware/v2.go. The
-- answers to its calls are a record. The count of extensions that `progress` shows is in Batch's `Work`,
-- and its message after each batch is left out.
use swarmdialer.Prelude.{
  ℕ, suc, ◌-◌, Bool, true, false, not, ◌&&◌, ◌||◌, Option, none, some, List, [], ◌∷◌, length, ◌==◌,
  if◌then◌else◌, String,
}
use swarmdialer.Prelude.Int.{ℤ, pos, negsuc}
use swarmdialer.Retry.{lower}
use swarmdialer.Sdp.Parse.{atoi}
use swarmdialer.Text.{Bytes, bytes, bytes_eq, decimal}
use swarmdialer.Wizard.Names.{sip_host_from, pad}
use swarmdialer.Wizard.Extensions.{provision_extensions}
use swarmdialer.Wizard.{
  WizardError, Result, ok, fail, request_failed, bad_country, bad_code, no_extension_length,
  ExtensionCreate, BatchItem, Existing, Extension,
}

abbrev pub system_tenant_id : ℕ
system_tenant_id = 1

abbrev pub ram_disk_size_mb : ℕ
ram_disk_size_mb = 512

abbrev pub package_name : Bytes
package_name = bytes "SwarmDialerPackage"

-- strings.EqualFold of ASCII
unfoldable pub is_multi_tenant_edition : Bytes → Bool
unfolding lower bytes_eq
is_multi_tenant_edition edition = bytes_eq (lower edition) (bytes "multi-tenant")

-- `TenantCode`: fmt's %03d
unfoldable pub tenant_code : ℤ → Bytes
unfolding pad
tenant_code (pos n) = pad (3 - length (decimal n)) (decimal n)
tenant_code (negsuc n) = b'-' ∷ pad (2 - length (decimal (suc n))) (decimal (suc n))

abbrev pub same_int : ℤ → ℤ → Bool
same_int (pos a) (pos b) = a == b
same_int (negsuc a) (negsuc b) = a == b
same_int _ _ = false

-- What is read of pbxware.TenantConfigV2 in a list of tenants.
pub record Tenant : Type 0 where
  pub id : ℕ
  pub code : ℤ

pub record Package : Type 0 where
  pub id : ℕ
  pub name : Bytes

pub record RecordingSettings : Type 0 where
  pub use_ram_disk : Bytes
  pub ram_disk_size : ℕ

pub record Params : Type 0 where
  pub base_url : Bytes
  pub extension_count : ℕ
  pub tenant_code : Bytes
  pub ext_length : ℕ
  pub country : Bytes
  pub channel_limit : ℕ
  pub max_wait : ℕ

-- The answer to each call, none or false if it fails. The fields from `over` to `stopped` are what
-- `provision_extensions` asks of the world, in the organisation that it is told.
pub record Answers : Type 0 where
  pub license : Option Bytes
  pub local_ip : Option Bytes
  pub before : Option RecordingSettings
  pub patch_system : Bool
  pub packages : Option (List Package)
  pub put_package : ℕ → Bool
  pub post_package : Option ℕ
  pub create_tenant : ℕ → ℤ → ℤ → Option ℕ
  pub tenants : Option (List Tenant)
  pub system_ext_length : Option ℤ
  pub over : ℕ → Bool
  pub secret : ℕ → Option Bytes
  pub read_back : Bytes → ℕ → ℕ → Option Existing
  pub post : Bytes → ℕ → ℕ → List ExtensionCreate → Option (List BatchItem)
  pub took : ℕ → ℕ → ℕ
  pub stopped : ℕ → ℕ → Bool
  pub registrable : List Extension → Option WizardError

pub record Progress : Type 0 where
  pub total : ℕ
  pub message : String
  pub done : Bool
  pub err : Option WizardError
  pub ram_disk_notice : Bool

-- The parts of store.Server that are not copied from the parameters.
pub record NewServer : Type 0 where
  pub edition : Bytes
  pub sip_host : Bytes
  pub local_ip : Bytes
  pub tenant_id : ℕ
  pub tenant_code : Bytes
  pub extensions : List Extension

unfoldable pub find_tenant : ℤ → List Tenant → Option Tenant
find_tenant code [] = none
find_tenant code (t ∷ ts) =
    let rest = find_tenant code ts in
    if not (t.id == system_tenant_id) && same_int t.code code then some t else rest

unfoldable pub find_package : List Package → Option ℕ
unfolding bytes_eq
find_package [] = none
find_package (p ∷ ps) =
    let rest = find_package ps in if bytes_eq p.name package_name then some p.id else rest

unfoldable pub ensure_package : Answers → Option ℕ
unfolding find_package
ensure_package w = elim w.packages [
  | none ↦ none
  | some ps ↦ elim (find_package ps) [
    | some id ↦ if w.put_package id then some id else none
    | none ↦ w.post_package
  ]
]

abbrev pub Provisioning : Type 0
Provisioning = Progress × Result NewServer

abbrev pub failed : WizardError → Progress → Provisioning
failed e pr = (record pr { done = true; err = some e }, fail e)

-- `provisionExtensions`, called with the parameters.
abbrev pub made_extensions : Answers → Params → Bytes → ℕ → Result (List Extension)
made_extensions w p org digits =
    provision_extensions w.over w.secret (w.read_back org) (w.post org) w.took w.stopped
      p.extension_count p.channel_limit p.max_wait digits

-- The end: the extensions, and the wait until they can be registered.
unfoldable pub make_extensions : Answers → Params → Bytes → ℕ → NewServer → Progress → Provisioning
make_extensions w p org digits srv pr = elim (made_extensions w p org digits) [
  | fail e ↦ failed e pr
  | ok exts ↦
      let waiting : Progress = record pr {
        message = "waiting for PBXware to load the new extensions (SIP registration check)";
      } in
      elim (w.registrable exts) [
        | some e ↦ failed e waiting
        | none ↦ (
          record waiting { done = true; message = "done" },
          ok (record srv { extensions = exts }),
        )
      ]
]

-- The tenant is created, or found if the request failed and it is there all the same.
unfoldable pub create_or_find : Answers → ℕ → ℤ → ℤ → Option ℕ
unfolding find_tenant
create_or_find w plan country code = elim (w.create_tenant plan country code) [
  | some id ↦ some id
  | none ↦ elim w.tenants [
    | none ↦ none
    | some ts ↦ elim (find_tenant code ts) [ none ↦ none | some t ↦ some t.id ]
  ]
]

unfoldable pub make_tenant : Answers → Params → NewServer → Progress → Provisioning
unfolding atoi ensure_package create_or_find tenant_code make_extensions
make_tenant w p srv pr = elim (atoi p.country) [
  | none ↦ failed (bad_country p.country) pr
  | some country ↦ elim (atoi p.tenant_code) [
    | none ↦ failed (bad_code p.tenant_code) pr
    | some code ↦
        let ensuring : Progress = record pr { message = "ensuring tenant package exists" } in
        elim (ensure_package w) [
          | none ↦ failed request_failed ensuring
          | some plan ↦
              let creating : Progress = record ensuring { message = "creating tenant" } in
              elim (create_or_find w plan country code) [
                | none ↦ failed request_failed creating
                | some id ↦
                    make_extensions w p (tenant_code code) p.ext_length
                      (record srv { tenant_id = id; tenant_code = p.tenant_code }) creating
              ]
        ]
  ]
]

unfoldable pub use_system : Answers → Params → NewServer → Progress → Provisioning
unfolding make_extensions
use_system w p srv pr =
    let detecting : Progress = record pr { message = "detecting system extension number length" } in
    elim w.system_ext_length [
      | none ↦ failed request_failed detecting
      | some (pos (suc n)) ↦ make_extensions w p (bytes "default") (suc n) srv detecting
      | some _ ↦ failed no_extension_length detecting
    ]

abbrev pub is_raised : RecordingSettings → Bool
is_raised s =
    not (bytes_eq s.use_ram_disk (bytes "yes")) || not (s.ram_disk_size == ram_disk_size_mb)

-- Only a Multi-Tenant edition has tenants.
unfoldable pub by_edition : Answers → Params → Bool → NewServer → Progress → Provisioning
unfolding make_tenant use_system
by_edition w p true srv pr = make_tenant w p srv pr
by_edition w p false srv pr = use_system w p srv pr

-- The settings of the whole system come first.
unfoldable pub raise_system : Answers → Params → NewServer → Progress → Provisioning
unfolding is_multi_tenant_edition by_edition bytes_eq
raise_system w p srv pr =
    let raising : Progress = record pr {
      message = "raising system-level channels/codecs/recording settings";
    } in
    elim w.before [
      | none ↦ failed request_failed raising
      | some before ↦
          if w.patch_system
          then (let noticed : Progress = record raising {
            ram_disk_notice = pr.ram_disk_notice || is_raised before;
          } in
              by_edition w p (is_multi_tenant_edition srv.edition) srv noticed)
          else failed request_failed raising
    ]

abbrev pub new_server : Params → Bytes → Bytes → NewServer
new_server p edition ip = record {
  edition = edition;
  sip_host = sip_host_from p.base_url;
  local_ip = ip;
  tenant_id = 0;
  tenant_code = [];
  extensions = [];
}

unfoldable pub provision : Answers → Params → Progress → Provisioning
unfolding raise_system sip_host_from
provision w p progress =
    let pr : Progress = record progress { total = p.extension_count; message = "connecting" } in
    elim w.license [
      | none ↦ failed request_failed pr
      | some edition ↦ elim w.local_ip [
        | none ↦ failed request_failed pr
        | some ip ↦ raise_system w p (new_server p edition ip) pr
      ]
    ]
