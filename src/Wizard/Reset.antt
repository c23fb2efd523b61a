-- ===== src/Wizard/Reset.antt =====
-- internal/wizard/reset.go: `ResetInstance`, which goes on past every failure and keeps a warning of it.
-- The answers to its calls are a record; a warning is told by what failed. The two workers that delete
-- extensions are steps of a relation in Reset/Workers.
use swarmdialer.Prelude.{
  ℕ, zero, suc, ◌+◌, ◌-◌, ◌≤◌, ◌<◌, Bool, true, false, Option, none, some, List, [], ◌∷◌, ◌++◌, map,
  length, ◌==◌, ltb, if◌then◌else◌, String,
}
use swarmdialer.Text.{Bytes}
use swarmdialer.Wizard.Server.{Package, find_package, is_multi_tenant_edition}
pub mod Workers
pub mod Clean

pub data Warning : Type 0 where
  trunk_kept tenant_kept tenant_still_there package_kept : ℕ → Warning
  packages_not_listed : Warning
  extension_kept : ℕ → Warning

-- What is read of a store.Server; an extension is its id.
pub record Instance : Type 0 where
  pub trunk_id : ℕ
  pub edition : Bytes
  pub tenant_id : ℕ
  pub extensions : List ℕ

-- The answers to the calls, false or none if they fail; an extension's delete is told its attempt.
pub record Replies : Type 0 where
  pub delete_trunk : ℕ → Bool
  pub delete_tenant : ℕ → Bool
  pub tenant_gone : ℕ → Bool
  pub packages : Option (List Package)
  pub delete_package : ℕ → Bool
  pub delete_extension : ℕ → ℕ → Bool

abbrev pub max_attempts : ℕ
max_attempts = 6

-- The loop of `deleteExtensionWithRetry`, from an attempt on: whether a delete got through.
unfoldable pub delete_attempts : (ℕ → Bool) → ℕ → ℕ → Bool
delete_attempts delete zero attempt = false
delete_attempts delete (suc left) attempt =
    let again = delete_attempts delete left (suc attempt) in if delete attempt then true else again

unfoldable pub delete_extension_with_retry : (ℕ → Bool) → Bool
unfolding delete_attempts
delete_extension_with_retry delete = delete_attempts delete max_attempts 1

-- The warning of a step, if it failed.
abbrev pub warn : Bool → Warning → List Warning
warn true x = []
warn false x = x ∷ []

unfoldable pub reset_trunk : Replies → Instance → List Warning
reset_trunk r srv =
    if srv.trunk_id == 0 then [] else warn (r.delete_trunk srv.trunk_id) (trunk_kept srv.trunk_id)

-- A tenant whose delete failed may be going away all the same.
unfoldable pub reset_tenant : Replies → Instance → List Warning
reset_tenant r srv =
    if srv.tenant_id == 0
    then []
    else (if r.delete_tenant srv.tenant_id
        then []
        else tenant_kept srv.tenant_id
          ∷ warn (r.tenant_gone srv.tenant_id) (tenant_still_there srv.tenant_id))

unfoldable pub reset_package : Replies → List Warning
unfolding find_package
reset_package r = elim r.packages [
  | none ↦ packages_not_listed ∷ []
  | some ps ↦ elim (find_package ps) [
    | none ↦ []
    | some id ↦ warn (r.delete_package id) (package_kept id)
  ]
]

-- The warnings that it ends with, `failures` being those of `deleteExtensions`, which Workers models. The
-- progress, which is done at the end in any case, has these joined.
unfoldable pub reset_instance : Replies → List Warning → Instance → List Warning
unfolding reset_trunk reset_tenant reset_package is_multi_tenant_edition
reset_instance r failures srv =
    if is_multi_tenant_edition srv.edition
    then reset_trunk r srv ++ (reset_tenant r srv ++ reset_package r)
    else reset_trunk r srv ++ failures
