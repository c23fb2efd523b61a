-- ===== src/Store/Servers.antt =====
-- The stored servers as a map by id.
use swarmdialer.Prelude.{
  OnSome, ◌≡◌, ◌↔◌, refl, sym, ◌∙◌, ap, String, ◌==s◌, eq_iff, eq_refl, arith, true, false, Option,
  none, some, List, [], ◌∷◌, ◌++◌, if◌then◌else◌, Bool-cases, Option-cases, inl, inr,
}
use swarmdialer.Store.{
  Server, Config, get_server, replace_server, delete_server, Change, add_server, update_server,
  remove_server, set_serverware, set_dt_collector, set_wizard_completed, set_servers, changed,
}

-- No two servers have the same id.
abbrev pub IsUnique : List Server → Type 0
IsUnique [] = Unit
IsUnique (s ∷ ss) = (get_server s.id ss ≡ none) × IsUnique ss

-- A server that is added has an id of its own.
abbrev pub IsFresh : Change → Config → Type 0
IsFresh (add_server srv) c = get_server srv.id c.servers ≡ none
IsFresh _ c = Unit

-- What a change does to the map: adding never replaces, and updating keeps what is not there.
abbrev pub mapped : Change → (String → Option Server) → String → Option Server
mapped (add_server srv) m id = elim (m id) [
  | some s ↦ some s
  | none ↦ if srv.id ==s id then some srv else none
]
mapped (update_server srv) m id = if srv.id ==s id then some srv else m id
mapped (remove_server gone) m id = if gone ==s id then none else m id
mapped _ m id = m id

get_server-add :
    (id : String) (srv : Server) (ss : List Server)
    → get_server id (ss ++ srv ∷ []) ≡ mapped (add_server srv) (λ i. get_server i ss) id
unfolding get_server
get_server-add id srv [] = ground arith
get_server-add id srv (s ∷ ss) = ground (arith, get_server-add id srv ss)

-- Equal ids answer any test alike.
eq-same : (a b id : String) → (a ==s b) ≡ true → (a ==s id) ≡ (b ==s id)
eq-same a b id h = ap (λ x. x ==s id) ((eq_iff a b).0 h)

eq-apart : (a b id : String) → (a ==s b) ≡ false → (b ==s id) ≡ true → (a ==s id) ≡ false
eq-apart a b id h k = ap (λ x. a ==s x) (sym ((eq_iff b id).0 k)) ∙ h

get_server-replace :
    (id : String) (srv : Server) (ss : List Server)
    → OnSome
        (λ (ts : List Server).
          get_server id ts ≡ mapped (update_server srv) (λ i. get_server i ss) id)
        (replace_server srv ss)
unfolding get_server replace_server
get_server-replace id srv [] = tt
get_server-replace id srv (s ∷ ss) = elim (Bool-cases (s.id ==s srv.id)) [
  | inl e ↦ rw (e, replace_server) (ground (arith, eq-same s.id srv.id id e))
  | inr e ↦ elim (Option-cases (replace_server srv ss)) [
    | inl q ↦ rw (e, q, replace_server) tt
    | inr (ts, q) ↦
        let ih : get_server id ts ≡ mapped (update_server srv) (λ i. get_server i ss) id =
          rw q at (get_server-replace id srv ss) in
        rw (e, q, replace_server) (ground (arith, ih, eq-apart s.id srv.id id e))
  ]
]

get_server-delete :
    (id gone : String) (ss : List Server)
    → IsUnique ss
    → OnSome
        (λ (ts : List Server).
          get_server id ts ≡ mapped (remove_server gone) (λ i. get_server i ss) id)
        (delete_server gone ss)
unfolding get_server delete_server
get_server-delete id gone [] u = tt
get_server-delete id gone (s ∷ ss) u = elim (Bool-cases (s.id ==s gone)) [
  | inl e ↦
      let same = (eq_iff s.id gone).0 e in
      let absent : (gone ==s id) ≡ true → get_server id ss ≡ none =
        λ k. ap (λ i. get_server i ss) (sym (same ∙ (eq_iff gone id).0 k)) ∙ u.0 in
      rw (e, delete_server) (ground (arith, absent, eq-same s.id gone id e))
  | inr e ↦ elim (Option-cases (delete_server gone ss)) [
    | inl q ↦ rw (e, q, delete_server) tt
    | inr (ts, q) ↦
        let ih : get_server id ts ≡ mapped (remove_server gone) (λ i. get_server i ss) id =
          rw q at (get_server-delete id gone ss u.1) in
        rw (e, q, delete_server) (ground (arith, ih, eq-apart s.id gone id e))
  ]
]

-- A change that fails names a server that is not there.
replace_server-absent :
    (srv : Server) (ss : List Server)
    → (replace_server srv ss ≡ none) ↔ (get_server srv.id ss ≡ none)
unfolding get_server replace_server
replace_server-absent srv [] = ground arith
replace_server-absent srv (s ∷ ss) = ground (arith, replace_server-absent srv ss)

delete_server-absent :
    (id : String) (ss : List Server) → (delete_server id ss ≡ none) ↔ (get_server id ss ≡ none)
unfolding get_server delete_server
delete_server-absent id [] = ground arith
delete_server-absent id (s ∷ ss) = ground (arith, delete_server-absent id ss)

eq-flip : (a b : String) → (a ==s b) ≡ false → (b ==s a) ≡ false
eq-flip a b h = elim (Bool-cases (b ==s a)) [
  | inr e ↦ e
  | inl e ↦ absurd (ground (arith, h, eq_refl a, ap (λ x. a ==s x) ((eq_iff b a).0 e)))
]

add-IsUnique :
    (srv : Server) (ss : List Server)
    → get_server srv.id ss ≡ none
    → IsUnique ss
    → IsUnique (ss ++ srv ∷ [])
unfolding get_server
add-IsUnique srv [] f u = (refl, tt)
add-IsUnique srv (s ∷ ss) f u = elim (Bool-cases (s.id ==s srv.id)) [
  | inl e ↦ absurd (ground (arith, f))
  | inr e ↦ (
    get_server-add s.id srv ss ∙ rw (u.0, eq-flip s.id srv.id e, mapped) refl,
    add-IsUnique srv ss (rw (e, get_server) at f) u.1,
  )
]

replace-IsUnique :
    (srv : Server) (ss : List Server) → IsUnique ss → OnSome IsUnique (replace_server srv ss)
unfolding replace_server
replace-IsUnique srv [] u = tt
replace-IsUnique srv (s ∷ ss) u = elim (Bool-cases (s.id ==s srv.id)) [
  | inl e ↦
      rw (e, replace_server) (ap (λ i. get_server i ss) (sym ((eq_iff s.id srv.id).0 e)) ∙ u.0, u.1)
  | inr e ↦ elim (Option-cases (replace_server srv ss)) [
    | inl q ↦ rw (e, q, replace_server) tt
    | inr (ts, q) ↦
        let at_own : get_server s.id ts ≡ mapped (update_server srv) (λ i. get_server i ss) s.id =
          rw q at (get_server-replace s.id srv ss) in
        let own = at_own ∙ rw (eq-flip s.id srv.id e) u.0 in
        let ih : IsUnique ts = rw q at (replace-IsUnique srv ss u.1) in
        rw (e, q, replace_server) (own, ih)
  ]
]

delete-IsUnique :
    (gone : String) (ss : List Server) → IsUnique ss → OnSome IsUnique (delete_server gone ss)
unfolding delete_server
delete-IsUnique gone [] u = tt
delete-IsUnique gone (s ∷ ss) u = elim (Bool-cases (s.id ==s gone)) [
  | inl e ↦ rw (e, delete_server) u.1
  | inr e ↦ elim (Option-cases (delete_server gone ss)) [
    | inl q ↦ rw (e, q, delete_server) tt
    | inr (ts, q) ↦
        let at_own : get_server s.id ts ≡ mapped (remove_server gone) (λ i. get_server i ss) s.id =
          rw q at (get_server-delete s.id gone ss u.1) in
        let own = at_own ∙ rw (eq-flip s.id gone e) u.0 in
        let ih : IsUnique ts = rw q at (delete-IsUnique gone ss u.1) in
        rw (e, q, delete_server) (own, ih)
  ]
]

-- A config after a change: still unique, and the map of its servers is the one that the change means.
abbrev pub Refines : Change → Config → Config → Type 0
Refines ch c c' =
    IsUnique c'.servers
    × ((id : String) → get_server id c'.servers ≡ mapped ch (λ i. get_server i c.servers) id)

set_servers-Refines :
    (ch : Change) (c : Config) (o : Option (List Server))
    → OnSome IsUnique o
    → ((id : String)
        → OnSome
            (λ (ts : List Server). get_server id ts ≡ mapped ch (λ i. get_server i c.servers) id)
            o)
    → OnSome (Refines ch c) (set_servers c o)
set_servers-Refines ch c none u m = tt
set_servers-Refines ch c (some ts) u m = (u, m)

changed-OnSome :
    (ch : Change) (c : Config)
    → IsUnique c.servers
    → IsFresh ch c
    → OnSome (Refines ch c) (changed ch c)
unfolding changed
changed-OnSome (add_server srv) c u f =
    (add-IsUnique srv c.servers f u, λ id. get_server-add id srv c.servers)
changed-OnSome (update_server srv) c u f =
    set_servers-Refines (update_server srv) c _ (replace-IsUnique srv c.servers u)
      (λ id. get_server-replace id srv c.servers)
changed-OnSome (remove_server gone) c u f =
    set_servers-Refines (remove_server gone) c _ (delete-IsUnique gone c.servers u)
      (λ id. get_server-delete id gone c.servers u)
changed-OnSome (set_serverware sw) c u f = (u, λ id. refl)
changed-OnSome (set_dt_collector dt) c u f = (u, λ id. refl)
changed-OnSome (set_wizard_completed done) c u f = (u, λ id. refl)

-- The list of servers implements a map by id: with all ids different, and the id of an added server a
-- new one, every change that is made leaves them different, and what GetServer then finds under each
-- id is what the change means (added, replaced or gone; all else as it was).
pub changed-Refines :
    (ch : Change) (c c' : Config)
    → IsUnique c.servers
    → IsFresh ch c
    → changed ch c ≡ some c'
    → Refines ch c c'
changed-Refines ch c c' u f h = rw h at (changed-OnSome ch c u f)

-- The id that a change needs to be there.
abbrev pub needs : Change → Option String
needs (update_server srv) = some srv.id
needs (remove_server id) = some id
needs _ = none

set_servers-none : (c : Config) (o : Option (List Server)) → (set_servers c o ≡ none) ↔ (o ≡ none)
set_servers-none c o = ground arith

-- A change is refused exactly when it updates or removes a server whose id is not there.
pub changed-none_iff :
    (ch : Change) (c : Config)
    → (changed ch c ≡ none)
      ↔ ((id : String) × (needs ch ≡ some id) × (get_server id c.servers ≡ none))
unfolding changed
changed-none_iff (update_server srv) c =
    let (a, b) = set_servers-none c (replace_server srv c.servers) in
    let (x, y) = replace_server-absent srv c.servers in
    ((λ h. (srv.id, refl, x (a h))), (λ (id, q, k). b (y (ground (arith, ap (λ o. o) q)))))
changed-none_iff (remove_server gone) c =
    let (a, b) = set_servers-none c (delete_server gone c.servers) in
    let (x, y) = delete_server-absent gone c.servers in
    ((λ h. (gone, refl, x (a h))), (λ (id, q, k). b (y (ground (arith, ap (λ o. o) q)))))
changed-none_iff ch c = ground arith
