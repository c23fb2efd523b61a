-- ===== src/Wizard/Provisioned.antt =====
-- internal/wizard/wizard.go: what `Provision` promises of its progress and of the server that it gives.
use swarmdialer.Prelude.{ℕ, ◌≡◌, Bool, true, none, some}
use swarmdialer.Wizard.Batch.{ext_base}
use swarmdialer.Wizard.Names.{sip_host_from}
use swarmdialer.Wizard.Outcome.{IsAsked}
use swarmdialer.Wizard.Server.{Params, Progress, NewServer, is_multi_tenant_edition}
use swarmdialer.Wizard.{Result, ok, fail}

-- The progress is done, and shows the error exactly when there is one.
abbrev pub IsSettled : Progress × Result NewServer → Type 0
IsSettled (pr, ok srv) = (pr.done ≡ true) × (pr.err ≡ none)
IsSettled (pr, fail e) = (pr.done ≡ true) × (pr.err ≡ some e)

-- The server is that of the URL, and has the extensions asked for; on a Multi-Tenant edition they have
-- the length asked for.
abbrev pub IsProvisioned : Params → Progress × Result NewServer → Type 0
IsProvisioned p (pr, fail e) = Unit
IsProvisioned p (pr, ok srv) =
    ((digits : ℕ) × IsAsked (ext_base digits) p.extension_count srv.extensions
      × (is_multi_tenant_edition srv.edition ≡ true → digits ≡ p.ext_length))
    × (srv.sip_host ≡ sip_host_from p.base_url)
