-- ===== src/Agent/Errors.antt =====
-- The errors of the compiler of agents and its chain of steps.
pub mod Chains
use flokoa.Common.{Text, Option, none, some, Bool, true, false, List}
use flokoa.Agent.Capability.{RequiresError, EntryNameError}
use flokoa.Agent.Conflicts.{Conflict}

pub data Permanent : Type 0 where
  extra_not_object : Permanent
  unsupported_provider : Text → Permanent
  no_tool_address : Text → Permanent
  no_capability_reader : Permanent
  cross_namespace : Text → Permanent
  attached_twice : Text → Permanent
  requires_failed : RequiresError → Permanent
  strict_without_schema : Text → Permanent
  config_rejected : Text → Permanent
  config_not_object : Text → Permanent
  bad_entry_name : Text → EntryNameError → Permanent
  entry_name_taken : Text → Text → Permanent
  dependency_conflicts : List Conflict → Permanent

pub data Dependency : Type 0 where
  model_not_found model_not_ready provider_not_found : Text → Text → Dependency
  instruction_not_found tool_not_found capability_not_found : Text → Text → Dependency
  service_not_found port_not_found : Text → Text → Dependency
  verification_in_flight not_verified : Text → Dependency

-- NewPermanentf, NewDependencyf, ValidationError with the runner version, and the errors without a
-- class.
pub data CompileError : Type 0 where
  permanent : Permanent → CompileError
  dependency : Dependency → CompileError
  invalid_spec : Text → CompileError
  internal : CompileError

pub data Result {ℓ} (A : Type ℓ) : Type ℓ where
  ok : A → Result A
  fails : CompileError → Result A

infixl 5 ◌>>=◌
unfoldable pub ◌>>=◌ {ℓ κ} : {A : Type ℓ} {B : Type κ} → Result A → (A → Result B) → Result B
ok a >>= f = f a
fails e >>= f = fails e

infixl 5 ◌>>◌
unfoldable pub ◌>>◌ {ℓ} : {B : Type ℓ} → Result (Unit {0}) → Result B → Result B
ok _ >> r = r
fails e >> r = fails e

unfoldable pub found {ℓ} : {A : Type ℓ} → CompileError → Option A → Result A
found e none = fails e
found e (some a) = ok a

unfoldable pub unless_error {ℓ} : {E : Type ℓ} → (E → CompileError) → Option E → Result (Unit {0})
unless_error f none = ok tt
unless_error f (some e) = fails (f e)

unfoldable pub require : CompileError → Bool → Result (Unit {0})
require e true = ok tt
require e false = fails e
