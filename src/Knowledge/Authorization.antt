-- ===== src/Knowledge/Authorization.antt =====
-- knowledge/domain/authorization.py and the policy of knowledge/application/permission_service.py.
use ragflow_agent.Base.{
  String, ◌≡◌, ◌↔◌, ◌⊎◌, Bool, true, false, not, List, arith, ◌==◌, eq_iff, if◌then◌else◌, Check,
  ok, raise_if,
}
use ragflow_agent.Knowledge.Errors.{Raised, forbidden}

pub data Visibility : Type 0 where
  private tenant : Visibility

pub data PermissionAction : Type 0 where
  read write delete manage : PermissionAction

pub record AuthorizationContext : Type 0 where
  pub tenant_id : String
  pub actor_id : String
  pub request_id : String
  pub roles : List String

pub record ResourceAuthorization : Type 0 where
  pub tenant_id : String
  pub owner_id : String
  pub visibility : Visibility

pub record PermissionDecision : Type 0 where
  pub allowed : Bool
  pub reason_code : String

abbrev decision : Bool → String → PermissionDecision
decision allowed reason_code = record { allowed = allowed; reason_code = reason_code }

-- The last three tests, by the visibility and the action.
abbrev by_visibility : Visibility → PermissionAction → PermissionDecision
by_visibility tenant read = decision true "tenant_read_allowed"
by_visibility private _ = decision false "private_owner_required"
by_visibility _ _ = decision false "owner_write_required"

-- `DefaultPermissionChecker.check`.
unfoldable pub check :
    AuthorizationContext → ResourceAuthorization → PermissionAction → PermissionDecision
check context resource action =
    if not (context.tenant_id == resource.tenant_id)
    then decision false "tenant_mismatch"
    else if context.actor_id == resource.owner_id
    then decision true "owner_allowed"
    else by_visibility resource.visibility action

-- `DefaultPermissionChecker.require`.
unfoldable pub require :
    AuthorizationContext → ResourceAuthorization → PermissionAction → Check Raised
require context resource action =
    let d = check context resource action in raise_if (not d.allowed) (forbidden d.reason_code)

-- Who may do what, stated without the order of the tests.
abbrev pub May : AuthorizationContext → ResourceAuthorization → PermissionAction → Type 0
May c r action =
    (c.tenant_id ≡ r.tenant_id)
    × ((c.actor_id ≡ r.owner_id) ⊎ ((r.visibility ≡ tenant) × (action ≡ read)))

-- A call is let through exactly for the owner in the resource's tenant, and for reads of a
-- tenant-visible resource by anybody in its tenant.
pub require_iff :
    (c : AuthorizationContext) (r : ResourceAuthorization) (action : PermissionAction)
    → (require c r action ≡ ok tt) ↔ May c r action
unfolding require check
require_iff c r action =
    ground (arith, eq_iff c.tenant_id r.tenant_id, eq_iff c.actor_id r.owner_id)
