-- ===== src/Wizard/Linked.antt =====
-- What `ConnectServers` promises: how its progress ends, and what two connected servers know.
use swarmdialer.Prelude.{
  ℕ, suc, ◌+◌, ◌≡◌, refl, sym, ap, ◌∙◌, ◌⊎◌, arith, Bool, true, false, Option, none, some, List, [],
  ◌∷◌, map, length, if◌then◌else◌, Option-cases, inl, inr,
}
use mathlib.Core.Option.{none-ne-some}
use swarmdialer.Text.{Bytes}
use swarmdialer.Wizard.Connect.{
  Side, ConnectFailure, no_credentials, Calls, ConnectProgress, Connected, stopped, add_dids_loop,
  add_dids_for, add_all_dids, keep_dids, default_trunk, set_defaults, trunk_params, add_trunks,
  connect_servers,
}
use swarmdialer.Wizard.Names.{did_for_10_digit_route}

-- The progress shows how the call returned, unless the credentials failed: then it never ends.
abbrev pub IsTold : Connected → Type 0
IsTold c =
    ((c.result ≡ some no_credentials) × (c.progress.done ≡ false))
    ⊎ ((c.progress.done ≡ true) × (c.progress.err ≡ c.result))

abbrev pub mapped : Bytes → List Bytes → List (Bytes × Bytes)
mapped code = map (λ ext. (did_for_10_digit_route code ext, ext))

-- On success the servers are each other's peers, have a DID for every extension, and all are counted.
abbrev pub IsLinked : Side → Side → ConnectProgress → Connected → Type 0
IsLinked a b pr c =
    c.result ≡ none
    → (c.a.peer_server_id ≡ b.id)
      × (c.b.peer_server_id ≡ a.id)
      × (c.a.dids ≡ mapped a.tenant_code a.extensions)
      × (c.b.dids ≡ mapped b.tenant_code b.extensions)
      × (c.progress.created ≡ pr.created + c.progress.total)
      × (c.progress.total ≡ length a.extensions + length b.extensions)

abbrev AllMade :
    Bytes → List Bytes → ConnectProgress → ConnectProgress → Option (List (Bytes × Bytes)) → Type 0
AllMade code exts pr later none = Unit
AllMade code exts pr later (some ms) =
    (ms ≡ mapped code exts) × (later.created ≡ pr.created + length exts)

-- What the loop of one side gives.
abbrev Added :
    Bytes → List Bytes → ConnectProgress → ConnectProgress × Option (List (Bytes × Bytes)) → Type 0
Added code exts pr out =
    (out.0.err ≡ pr.err) × (out.0.total ≡ pr.total) × AllMade code exts pr out.0 out.1

if-Added :
    (code : Bytes) (exts : List Bytes) (pr : ConnectProgress) (b : Bool)
    (x y : ConnectProgress × Option (List (Bytes × Bytes)))
    → Added code exts pr x
    → Added code exts pr y
    → Added code exts pr (if b then x else y)
if-Added code exts pr true x y h k = h
if-Added code exts pr false x y h k = k

-- One more DID in front of those of the rest.
cons-Added :
    (code ext : Bytes) (exts : List Bytes) (pr : ConnectProgress)
    (out : ConnectProgress × Option (List (Bytes × Bytes)))
    → Added code exts (record pr { created = suc pr.created }) out
    → Added code (ext ∷ exts) pr (
      out.0,
      elim out.1 [ none ↦ none | some ms ↦ some ((did_for_10_digit_route code ext, ext) ∷ ms) ],
    )
cons-Added code ext exts pr (later, none) h = (h.0, h.1, tt)
cons-Added code ext exts pr (later, some ms) h =
    (h.0, h.1, (ap (λ l. (did_for_10_digit_route code ext, ext) ∷ l) h.2.0, omega (arith, h.2.1)))

module _ (w : Calls) where
  add_dids_loop-Added :
      (id code : Bytes) (tenant trunk : ℕ) (exts : List Bytes) (pr : ConnectProgress)
      → Added code exts pr (add_dids_loop w id code tenant trunk exts pr)
  unfolding add_dids_loop
  add_dids_loop-Added id code tenant trunk [] pr = (refl, refl, (refl, omega arith))
  add_dids_loop-Added id code tenant trunk (ext ∷ exts) pr =
      if-Added code (ext ∷ exts) pr
        (w.add_did id tenant trunk (did_for_10_digit_route code ext) ext) _ _
        (cons-Added code ext exts pr
          (add_dids_loop w id code tenant trunk exts (record pr { created = suc pr.created }))
          (add_dids_loop-Added id code tenant trunk exts (record pr { created = suc pr.created })))
        (refl, refl, tt)

  -- The invariant of the stages: no error is shown before one happens.
  abbrev Good : Side → Side → ConnectProgress → Connected → Type 0
  Good a b pr c = IsTold c × IsLinked a b pr c

  stopped-Good :
      (e : ConnectFailure) (a b x y : Side) (pr q : ConnectProgress) → Good a b pr (stopped e q x y)
  stopped-Good e a b x y pr q = (inr (refl, refl), (λ h. absurd (none-ne-some e (sym h))))

  add_dids_for-Added :
      (srv : Side) (pr : ConnectProgress)
      → Added srv.tenant_code srv.extensions pr (add_dids_for w srv pr)
  unfolding add_dids_for
  add_dids_for-Added srv pr =
      add_dids_loop-Added srv.id srv.tenant_code _ srv.trunk_id srv.extensions pr

  keep_dids-Good :
      (a b : Side) (pr : ConnectProgress) (x y : ConnectProgress × Option (List (Bytes × Bytes)))
      → pr.err ≡ none
      → a.peer_server_id ≡ b.id
      → b.peer_server_id ≡ a.id
      → Added a.tenant_code a.extensions
          (record pr { stage = "dids"; total = length a.extensions + length b.extensions })
          x
      → Added b.tenant_code b.extensions x.0 y
      → Good a b pr (keep_dids a b x y)
  unfolding keep_dids
  keep_dids-Good a b pr (x, none) y h ha hb k l = stopped-Good _ a b a b pr x
  keep_dids-Good a b pr (x, some ms) (y, none) h ha hb k l =
      stopped-Good _ a b (record a { dids = ms }) b pr y
  keep_dids-Good a b pr (x, some ms) (y, some ns) h ha hb k l = (
    inr (refl, l.0 ∙ k.0 ∙ h),
    (λ _. (ha, hb, k.2.0, l.2.0, omega (arith, k.1, k.2.1, l.1, l.2.1), l.1 ∙ k.1)),
  )

  add_all_dids-Good :
      (a b : Side) (pr : ConnectProgress)
      → pr.err ≡ none
      → a.peer_server_id ≡ b.id
      → b.peer_server_id ≡ a.id
      → Good a b pr (add_all_dids w a b pr)
  unfolding add_all_dids
  add_all_dids-Good a b pr h ha hb =
      let first : ConnectProgress = record pr {
        stage = "dids";
        total = length a.extensions + length b.extensions;
      } in
      keep_dids-Good a b pr (add_dids_for w a first) (add_dids_for w b (add_dids_for w a first).0) h
        ha hb (add_dids_for-Added a first) (add_dids_for-Added b (add_dids_for w a first).0)

  if-Good :
      (a b : Side) (pr : ConnectProgress) (t : Bool) (x y : Connected)
      → Good a b pr x
      → Good a b pr y
      → Good a b pr (if t then x else y)
  if-Good a b pr true x y h k = h
  if-Good a b pr false x y h k = k

  set_defaults-Good :
      (a b : Side) (pr : ConnectProgress)
      → pr.err ≡ none
      → a.peer_server_id ≡ b.id
      → b.peer_server_id ≡ a.id
      → Good a b pr (set_defaults w a b pr)
  unfolding set_defaults
  set_defaults-Good a b pr h ha hb =
      let q : ConnectProgress = record pr { stage = "default-trunk" } in
      if-Good a b pr (default_trunk w a) _ _
        (if-Good a b pr (default_trunk w b) _ _ (add_all_dids-Good a b q h ha hb)
          (stopped-Good _ a b a b pr q))
        (stopped-Good _ a b a b pr q)

  add_trunks-Good :
      (a b : Side) (cred_a cred_b : Bytes) (m n : ℕ) (pr : ConnectProgress)
      → pr.err ≡ none
      → Good a b pr (add_trunks w a b cred_a cred_b m n pr)
  unfolding add_trunks
  add_trunks-Good a b cred_a cred_b m n pr h =
      elim (Option-cases (w.add_trunk a.id (trunk_params w a b m cred_a cred_b))) [
        | inl q ↦ rw (q, add_trunks) (stopped-Good _ a b a b pr pr)
        | inr (t, q) ↦ elim (Option-cases (w.add_trunk b.id (trunk_params w b a n cred_b cred_a))) [
          | inl r ↦ rw (q, r, add_trunks) (stopped-Good _ a b a b pr pr)
          | inr (u, r) ↦
              rw (q, r, add_trunks)
                (set_defaults-Good (record a { trunk_id = t; peer_server_id = b.id })
                  (record b { trunk_id = u; peer_server_id = a.id }) pr h refl refl)
        ]
      ]

  -- From a progress that shows neither an end nor an error, a connection ends with a progress that is
  -- done and shows the error it returns, if any, unless the credentials failed: then the progress never
  -- ends. Without an error the two servers are each other's peers, every extension of either has the DID
  -- of its number, and the progress counts one of each.
  pub connect_servers-IsLinked :
      (a b : Side) (pr : ConnectProgress)
      → pr.done ≡ false
      → pr.err ≡ none
      → IsTold (connect_servers w a b pr) × IsLinked a b pr (connect_servers w a b pr)
  unfolding connect_servers
  connect_servers-IsLinked a b pr hd h =
      let q : ConnectProgress = record pr { stage = "trunk" } in
      elim (Option-cases w.secret_a) [
        | inl e ↦ rw (e, connect_servers) (silent-Good a b pr hd)
        | inr (cred_a, e) ↦ elim (Option-cases w.secret_b) [
          | inl f ↦ rw (e, f, connect_servers) (silent-Good a b pr hd)
          | inr (cred_b, f) ↦ elim (Option-cases (w.provider a.id)) [
            | inl g ↦ rw (e, f, g, connect_servers) (stopped-Good _ a b a b pr q)
            | inr (m, g) ↦ elim (Option-cases (w.provider b.id)) [
              | inl i ↦ rw (e, f, g, i, connect_servers) (stopped-Good _ a b a b pr q)
              | inr (n, i) ↦
                  rw (e, f, g, i, connect_servers) (add_trunks-Good a b cred_a cred_b m n q h)
            ]
          ]
        ]
      ]
    where
      silent-Good :
          (a b : Side) (pr : ConnectProgress)
          → pr.done ≡ false
          → Good a b pr (record {
            progress = record pr { stage = "trunk" };
            result = some no_credentials;
            a = a;
            b = b;
          })
      silent-Good a b pr hd = (inl (refl, hd), (λ h. absurd (none-ne-some no_credentials (sym h))))
