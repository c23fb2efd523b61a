-- ===== src/Recording.antt =====
-- cmd/gui/recording.go: whether calls are recorded on the PBXware instances of a dialer section, and the
-- switch for it. What an instance answers is a function of the tenant that is asked.
use swarmdialer.Prelude.{
  ℕ, ◌≡◌, ◌↔◌, ◌≢◌, refl, sym, ap, subst, ◌∙◌, arith, String, ◌==s◌, Bool, true, false, ◌&&◌,
  Option, none, some, List, [], ◌∷◌, if◌then◌else◌, All, Bool-cases, Option-cases, inl, inr,
}
use swarmdialer.Text.{Bytes, bytes, bytes_eq}
use swarmdialer.Wizard.Server.{system_tenant_id, is_multi_tenant_edition}
pub mod Both

-- What is read of a store.Server.
pub record Host : Type 0 where
  pub id : String
  pub tenant_id : ℕ
  pub edition : Bytes

-- The client of a target is told by its server's id.
pub record Target : Type 0 where
  pub client : String
  pub tenant_id : ℕ
  pub edition : Bytes

-- pbxware.CallRecordingsV2, as far as it is read
pub record Settings : Type 0 where
  pub enabled : Bytes
  pub stereo_recording_enabled : Bytes
  pub format : Bytes

pub record Status : Type 0 where
  pub enabled : Bool
  pub stereo_enabled : Bool
  pub format : Bytes

pub record ToggleRequest : Type 0 where
  pub enabled : Bool
  pub stereo : Bool
  pub format : Bytes

abbrev pub target_of : Host → Target
target_of srv = record {
  client = srv.id;
  tenant_id = if is_multi_tenant_edition srv.edition then srv.tenant_id else system_tenant_id;
  edition = srv.edition;
}

unfoldable pub resolve : (String → Option Host) → List String → Option (List Target)
unfolding is_multi_tenant_edition
resolve get_server [] = some []
resolve get_server (id ∷ ids) =
    let rest = resolve get_server ids in
    elim (get_server id) [
      | none ↦ none
      | some srv ↦ elim rest [ none ↦ none | some ts ↦ some (target_of srv ∷ ts) ]
    ]

-- The caller's side comes first.
unfoldable pub recording_targets :
    (String → Option Host) → String → String → String → Option (List Target)
unfolding resolve
recording_targets get_server section server_id peer_server_id =
    resolve get_server
      (if section ==s "remote" then server_id ∷ peer_server_id ∷ [] else server_id ∷ [])

abbrev pub is_yes : Bytes → Bool
is_yes s = bytes_eq s (bytes "yes")

abbrev pub yes_no : Bool → Bytes
yes_no b = if b then bytes "yes" else bytes "no"

-- The status of several targets: on only if it is on for all of them.
unfoldable pub combine : Status → List Status → Status
combine st [] = st
combine st (s ∷ ss) =
    combine
      (record st {
        enabled = st.enabled && s.enabled;
        stereo_enabled = st.stereo_enabled && s.stereo_enabled;
      })
      ss

-- A loop over the targets, which ends with the first that fails.
unfoldable pub ask_all : (Target → Option Status) → List Target → Option (List Status)
ask_all f [] = some []
ask_all f (t ∷ ts) =
    let rest = ask_all f ts in
    elim (f t) [ none ↦ none | some st ↦ elim rest [ none ↦ none | some sts ↦ some (st ∷ sts) ] ]

-- The status of all targets, if all answer; `empty` is that of no targets.
unfoldable pub combined : Option Status → Option (List Status) → Option Status
unfolding combine
combined empty none = none
combined empty (some []) = empty
combined empty (some (st ∷ sts)) = some (combine st sts)

-- The status that an instance confirms, by the records that hold the recording and the stereo setting.
abbrev pub status_of : Settings → Settings → Status
status_of cfg stereo = record {
  enabled = is_yes cfg.enabled;
  stereo_enabled = is_yes stereo.stereo_recording_enabled;
  format = cfg.format;
}

-- `read` is GetTenant.
module _ (read : String → ℕ → Option Settings) where
  unfoldable pub read_recording_status : Target → Option Status
  unfolding is_multi_tenant_edition bytes_eq
  read_recording_status t = elim (read t.client t.tenant_id) [
    | none ↦ none
    | some cfg ↦
        if is_multi_tenant_edition t.edition
        then elim (read t.client system_tenant_id) [
          | none ↦ none
          | some system ↦ some (status_of cfg system)
        ]
        else some (status_of cfg cfg)
  ]

  unfoldable pub read_combined_recording_status : List Target → Option Status
  unfolding ask_all read_recording_status
  read_combined_recording_status ts =
      combined (some (record { enabled = false; stereo_enabled = false; format = [] }))
        (ask_all read_recording_status ts)

-- A PATCH of a tenant's recording settings: the switch and the format, or the stereo setting.
pub data Patch : Type 0 where
  set_recording : Bytes → Bytes → Patch
  set_stereo : Bytes → Patch

-- Stereo never makes sense with recording itself off.
abbrev pub checked : ToggleRequest → ToggleRequest
checked req = if req.enabled then req else record req { stereo = false }

-- `patch` is PatchTenant: what it confirms, or none.
module _ (patch : String → ℕ → Patch → Option Settings) where
  unfoldable pub apply_recording_settings : Target → ToggleRequest → Option Status
  unfolding is_multi_tenant_edition bytes_eq
  apply_recording_settings t req =
      elim (patch t.client t.tenant_id (set_recording (yes_no req.enabled) req.format)) [
        | none ↦ none
        | some cfg ↦
            elim (patch t.client
              (if is_multi_tenant_edition t.edition then system_tenant_id else t.tenant_id)
              (set_stereo (yes_no req.stereo))) [
                | none ↦ none
                | some stereo ↦ some (status_of cfg stereo)
              ]
      ]

  -- `handleRecordingToggle`, once the targets are known; there is one at least.
  unfoldable pub toggle : List Target → ToggleRequest → Option Status
  unfolding ask_all apply_recording_settings
  toggle ts req = combined none (ask_all (λ t. apply_recording_settings t (checked req)) ts)
