-- ===== src/Examples/Records.antt =====
-- Two calls of one extension within a match's tolerance, and two pages of records, of which the second
-- holds one that is too old.
use swarmdialer.Prelude.{
  String, ◌==s◌, if◌then◌else◌, ◌≡◌, refl, Bool, true, false, Option, none, some, List, [], ◌∷◌,
  ◌++◌, ℕ, zero, suc,
}
use swarmdialer.Prelude.Int.{pos}
use swarmdialer.Recording.{Target, Settings, Patch, ToggleRequest}
use swarmdialer.Text.{Bytes, bytes}
use swarmdialer.Cdr.{CdrEntry, CallWindow, parsed}
use swarmdialer.Cdr.Pages.{
  Page, RecordingCdr, Columns, columns, column_of, read_row, recording_cdrs_since, read_all,
}
use swarmdialer.Cdr.Since.{
  Serves, last, more, records, page_count, fresh, recording_cdrs_since-fresh,
}

abbrev entry : ℕ → Bytes → CdrEntry
entry start id = record { from = bytes "1000"; start_unix = pos start; unique_id = id }

abbrev window : CallWindow
window = record { ext = bytes "1000"; start = pos 1000; end = pos 1060 }

abbrev row : Bytes → Bytes → List Bytes
row id start = bytes "1000" ∷ start ∷ bytes "30" ∷ id ∷ bytes "True" ∷ []

abbrev first_rows : List (List Bytes)
first_rows = row (bytes "90.1") (bytes "90") ∷ row (bytes "60.1") (bytes "60") ∷ []

abbrev second_rows : List (List Bytes)
second_rows = row (bytes "50.1") (bytes "50") ∷ row (bytes "20.1") (bytes "20") ∷ []

abbrev page_of : List (List Bytes) → Bool → Page
page_of rows next = record {
  header =
      bytes "From"
      ∷ bytes "Date/Time"
      ∷ bytes "Total Duration"
      ∷ bytes "Unique ID"
      ∷ bytes "Recording Available"
      ∷ [];
  rows = rows;
  next_page = next;
}

abbrev pages : ℕ → Option Page
pages (suc zero) = some (page_of first_rows true)
pages (suc (suc zero)) = some (page_of second_rows false)
pages _ = none

abbrev found : Columns
found = record { id = 3; start = 1; duration = 2; available = 4; status = none }

abbrev cdr : Bytes → ℕ → RecordingCdr
cdr id start = record {
  unique_id = id;
  start_unix = pos start;
  duration = pos 30;
  available = true;
  status = [];
}

abbrev all_records : List RecordingCdr
all_records =
    (cdr (bytes "90.1") 90 ∷ cdr (bytes "60.1") 60 ∷ [])
    ++ (cdr (bytes "50.1") 50 ∷ cdr (bytes "20.1") 20 ∷ [])

served : Serves pages 1 all_records
unfolding columns column_of records read_row parsed
served =
    more 1 (page_of first_rows true) found (row (bytes "90.1") (bytes "90"))
      (row (bytes "60.1") (bytes "60") ∷ []) (cdr (bytes "90.1") 90 ∷ cdr (bytes "60.1") 60 ∷ [])
      (cdr (bytes "50.1") 50 ∷ cdr (bytes "20.1") 20 ∷ []) refl refl refl refl refl
      (last 2 (page_of second_rows false) found (row (bytes "50.1") (bytes "50"))
        (row (bytes "20.1") (bytes "20") ∷ []) (cdr (bytes "50.1") 50 ∷ cdr (bytes "20.1") 20 ∷ [])
        refl refl refl refl refl)

recording_cdrs_since-fresh_example :
    recording_cdrs_since pages (pos 55) (page_count served) ≡ read_all (fresh (pos 55) all_records)
recording_cdrs_since-fresh_example =
    recording_cdrs_since-fresh (pos 55) pages all_records served
      (((refl, (refl, (refl, tt))), ((refl, (refl, tt)), ((refl, tt), (tt, tt)))))

abbrev local : Target
local = record { client = "srv-1"; tenant_id = 9; edition = bytes "Multi-Tenant" }

abbrev remote : Target
remote = record { client = "srv-2"; tenant_id = 1; edition = bytes "Call Centre" }

-- Only the first server records.
abbrev get_tenant : String → ℕ → Option Settings
get_tenant client tenant = some (record {
  enabled = if client ==s "srv-1" then bytes "yes" else bytes "no";
  stereo_recording_enabled = bytes "yes";
  format = bytes "wav";
})

abbrev patch_tenant : String → ℕ → Patch → Option Settings
patch_tenant client tenant p = get_tenant client tenant

abbrev all_on : ToggleRequest
all_on = record { enabled = true; stereo = true; format = bytes "wav" }
