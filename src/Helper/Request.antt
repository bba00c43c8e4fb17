-- ===== src/Helper/Request.antt =====
-- The requests and the policy of internal/helper/authorization.go, network.go and auxiliary.go. An
-- absent pointer and a nil slice are `none`; a time is a number of nanoseconds.
use virmill.Prelude.{ℕ, String, Bool, Option, List}
use virmill.Prelude.Table.{Table}
use virmill.Network.Managed.{NetworkDefinition}

-- `ManagedFileVolume` of internal/domain/storage_access.go
pub record ManagedFileVolume : Type 0 where
  pub vm_id : String
  pub vm_fingerprint : String
  pub disk_target : String
  pub pool_id : String
  pub pool_fingerprint : String
  pub volume_name : String
  pub volume_key : String
  pub path : String

pub record AccessRequest : Type 0 where
  pub mapping : ManagedFileVolume
  pub relative_path : String
  pub before : String
  pub actor_groups : List ℕ
  pub original_grant_job_id : String

pub record NetworkRequest : Type 0 where
  pub version : ℕ
  pub definition : NetworkDefinition

pub record NetworkPermission : Type 0 where
  pub actor_uid : ℕ
  pub key_id : String
  pub resource_id : String

pub record AuxiliaryPermission : Type 0 where
  pub actor_uid : ℕ
  pub key_id : String
  pub resource_id : String
  pub root_id : String
  pub state_uid : ℕ
  pub state_gid : ℕ
  pub max_bytes : ℕ
  pub max_members : ℕ
  pub allow_capture : Bool

pub record AuxiliaryFileState : Type 0 where
  pub generation : String
  pub size : ℕ
  pub modified : String
  pub changed : String
  pub links : ℕ
  pub mode : ℕ
  pub uid : ℕ
  pub gid : ℕ
  pub acl : String
  pub selinux : String

pub record AuxiliaryRoot : Type 0 where
  pub id : String
  pub path : String
  pub state : AuxiliaryFileState

pub record AuxiliaryDirectory : Type 0 where
  pub relative_path : String
  pub state : AuxiliaryFileState

pub record AuxiliaryMember : Type 0 where
  pub id : String
  pub kind : String
  pub relative_path : String
  pub state : AuxiliaryFileState

-- `ResourceKey` of internal/domain/domain.go
pub record ResourceKey : Type 0 where
  pub provider_id : String
  pub connection_id : String
  pub kind : String
  pub uuid : String

-- Of the layout of the cold state, the machine alone is read: `layout_vm_id`.
pub record AuxiliaryInventory : Type 0 where
  pub version : ℕ
  pub resource : ResourceKey
  pub fingerprint : String
  pub layout_vm_id : String
  pub root : AuxiliaryRoot
  pub directories : Option (List AuxiliaryDirectory)
  pub members : Option (List AuxiliaryMember)
  pub total_bytes : ℕ
  pub tpm_lock : Option AuxiliaryMember

pub record AuxiliaryRequest : Type 0 where
  pub version : ℕ
  pub fingerprint : String
  pub expected : Option AuxiliaryInventory

pub record Request : Type 0 where
  pub api_version : String
  pub actor_uid : ℕ
  pub operation : String
  pub resource_id : String
  pub root_id : String
  pub plan_digest : String
  pub job_id : String
  pub expires_at : ℕ
  pub key_id : String
  pub signature : String
  pub mode : String
  pub access : Option AccessRequest
  pub auxiliary : Option AuxiliaryRequest
  pub network : Option NetworkRequest

pub record Policy : Type 0 where
  pub api_version : String
  pub keys : Table String
  pub roots : Table String
  pub actors : List ℕ
  pub auxiliary : List AuxiliaryPermission
  pub networks : List NetworkPermission
  pub protected_networks : List NetworkPermission

-- What the standard library does: `path.Clean`, the classes of code points that a path may not
-- have, the canonical form of a request, and `ed25519.Verify` of a key, a message and a signature
pub record Services : Type 0 where
  pub clean : String → String
  pub is_control : ℕ → Bool
  pub is_format : ℕ → Bool
  pub canonical : Request → Option (List ℕ)
  pub verify : List ℕ → List ℕ → List ℕ → Bool
