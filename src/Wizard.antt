-- ===== src/Wizard.antt =====
-- internal/wizard: the setup wizard. What its parts share: the errors, and the extensions it makes.
use swarmdialer.Prelude.{ℕ, Option, List}
use swarmdialer.Text.{Bytes}
pub mod Batch
pub mod Extensions
pub mod Items
pub mod Rounds
pub mod Ends
pub mod Order
pub mod Outcome
pub mod Names
pub mod Shapes
pub mod Server
pub mod Provisioned
pub mod Reset
pub mod Connect
pub mod Linked

-- Why a step of the wizard fails. The text of a failed request is left out.
pub data WizardError : Type 0 where
  request_failed cancelled no_secret : WizardError
  unknown_item : ℕ → WizardError
  read_back_failed bad_username : ℕ → WizardError
  too_many_reserved : Bytes → WizardError
  item_failed : ℕ → Bytes → WizardError
  bad_country bad_code : Bytes → WizardError
  no_extension_length : WizardError
  not_registrable : Bytes → WizardError
  out_of_fuel : WizardError

-- A Go function's value or its error.
pub data Result {ℓ} (A : Type ℓ) : Type ℓ where
  ok : A → Result A
  fail : WizardError → Result A

infixl 5 ◌>>=◌
abbrev pub ◌>>=◌ {ℓ κ} : {A : Type ℓ} {B : Type κ} → Result A → (A → Result B) → Result B
ok a >>= f = f a
fail e >>= f = fail e

-- pbxware.ExtensionCreateV2
pub record ExtensionCreate : Type 0 where
  pub number : ℕ
  pub name : Bytes
  pub email : Bytes
  pub secret : Bytes
  pub user_password : Bytes
  pub pin : Bytes
  pub uad_id : ℕ
  pub incoming_limit : ℕ
  pub outgoing_limit : ℕ
  pub codecs : List Bytes

-- pbxware.BatchItemResultV2, with the text of its error
pub record BatchItem : Type 0 where
  pub id : ℕ
  pub extension_id : ℕ
  pub err : Option Bytes

-- pbxware.ExtensionV2, as far as it is read
pub record Existing : Type 0 where
  pub id : ℕ
  pub username : ℕ
  pub secret : Bytes

-- pbxware.ProvisionedExtension
pub record Extension : Type 0 where
  pub extension_id : ℕ
  pub ext : Bytes
  pub username : Bytes
  pub secret : Bytes
