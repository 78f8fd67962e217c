-- ===== src/Agent/Tools/Policy.antt =====
-- The decision of `ToolPolicyEngine.evaluate` in agent/application/tool_policy.py.
use ragflow_agent.Base.{
  String, ◌≡◌, refl, ◌↔◌, ◌⊎◌, Bool, true, false, Option, none, some, List, [], arith, In, elem,
  elem_iff, overlaps, overlaps_sound, overlaps_complete, inl, inr, is_empty, not, ◌&&◌, ◌∷◌,
  if◌then◌else◌,
}
use ragflow_agent.Agent.Tools.{
  allow, require_approval, deny, ToolRegistration, ToolAuthorizationContext, evaluate,
  needs_approval, scope_in,
}

-- An empty list of tenants, roles or scopes allows all; any other allows what it lists.
abbrev TenantAdmitted : ToolRegistration → ToolAuthorizationContext → Type 0
TenantAdmitted r c = (r.allowed_tenant_ids ≡ []) ⊎ In c.tenant_id r.allowed_tenant_ids

abbrev RoleAdmitted : ToolRegistration → ToolAuthorizationContext → Type 0
RoleAdmitted r c =
    (r.allowed_roles ≡ []) ⊎ ((role : String) × In role c.roles × In role r.allowed_roles)

abbrev ScopeAdmitted : ToolRegistration → Option String → Type 0
ScopeAdmitted r scope =
    (r.allowed_business_scopes ≡ [])
    ⊎ ((s : String) × (scope ≡ some s) × In s r.allowed_business_scopes)

pub record IsAdmitted (r : ToolRegistration) (c : ToolAuthorizationContext) (scope : Option String)
    : Type 0 where
  pub tenant : TenantAdmitted r c
  pub role : RoleAdmitted r c
  pub business_scope : ScopeAdmitted r scope

is_empty→eq : (xs : List String) → is_empty xs ≡ true → xs ≡ []
is_empty→eq [] h = refl
is_empty→eq (x ∷ xs) h = cc

-- One test of the policy: a list that is not empty and does not have what is asked for.
refuses : List String → Bool → Bool
refuses xs b = not (is_empty xs) && not b

passes_iff : (xs : List String) (b : Bool) → (refuses xs b ≡ false) ↔ ((xs ≡ []) ⊎ (b ≡ true))
unfolding refuses
passes_iff [] b = ((λ h. inl refl), (λ h. refl))
passes_iff (x ∷ xs) true = ((λ h. inr refl), (λ h. refl))
passes_iff (x ∷ xs) false = ground arith

scope_in_sound :
    (scope : Option String) (xs : List String)
    → scope_in scope xs ≡ true
    → (s : String) × (scope ≡ some s) × In s xs
scope_in_sound none xs h = cc
scope_in_sound (some s) xs h = (s, refl, (elem_iff s xs).0 h)

scope_in_complete :
    (scope : Option String) (xs : List String) (s : String)
    → scope ≡ some s
    → In s xs
    → scope_in scope xs ≡ true
scope_in_complete none xs s e i = cc
scope_in_complete (some t) xs s e i = ground (arith, (elem_iff s xs).1 i)

module _ (r : ToolRegistration) (c : ToolAuthorizationContext) (scope : Option String) where
  tenant_test :
      (refuses r.allowed_tenant_ids (elem c.tenant_id r.allowed_tenant_ids) ≡ false)
      ↔ TenantAdmitted r c
  tenant_test = ground (
    arith,
    passes_iff r.allowed_tenant_ids (elem c.tenant_id r.allowed_tenant_ids),
    elem_iff c.tenant_id r.allowed_tenant_ids,
  )

  role_test :
      (refuses r.allowed_roles (overlaps c.roles r.allowed_roles) ≡ false) ↔ RoleAdmitted r c
  role_test = (
    (λ h. elim ((passes_iff r.allowed_roles _).0 h) [
      | inl e ↦ inl e
      | inr e ↦ inr (overlaps_sound c.roles r.allowed_roles e)
    ]),
    (λ h. elim h [
      | inl e ↦ (passes_iff r.allowed_roles _).1 (inl e)
      | inr (x, i, j) ↦
          (passes_iff r.allowed_roles _).1 (inr (overlaps_complete c.roles r.allowed_roles x i j))
    ]),
  )

  scope_test :
      (refuses r.allowed_business_scopes (scope_in scope r.allowed_business_scopes) ≡ false)
      ↔ ScopeAdmitted r scope
  scope_test = (
    (λ h. elim ((passes_iff r.allowed_business_scopes _).0 h) [
      | inl e ↦ inl e
      | inr e ↦ inr (scope_in_sound scope r.allowed_business_scopes e)
    ]),
    (λ h. elim h [
      | inl e ↦ (passes_iff r.allowed_business_scopes _).1 (inl e)
      | inr (s, e, i) ↦
          (passes_iff r.allowed_business_scopes _).1
            (inr (scope_in_complete scope r.allowed_business_scopes s e i))
    ]),
  )

  -- The action as one choice over the three tests and the need of an approval.
  action_lem : (evaluate r c scope).action ≡ (
      if refuses r.allowed_tenant_ids (elem c.tenant_id r.allowed_tenant_ids)
      then deny
      else if refuses r.allowed_roles (overlaps c.roles r.allowed_roles)
      then deny
      else if refuses r.allowed_business_scopes (scope_in scope r.allowed_business_scopes)
      then deny
      else if needs_approval r
      then require_approval
      else allow)
  unfolding evaluate refuses
  action_lem = ground arith

  IsAdmitted-iff :
      (refuses r.allowed_tenant_ids (elem c.tenant_id r.allowed_tenant_ids) ≡ false)
        × (refuses r.allowed_roles (overlaps c.roles r.allowed_roles) ≡ false)
        × (refuses r.allowed_business_scopes (scope_in scope r.allowed_business_scopes) ≡ false)
      ↔ IsAdmitted r c scope
  IsAdmitted-iff = (
    (λ (t, o, s). record {
      tenant = tenant_test.0 t;
      role = role_test.0 o;
      business_scope = scope_test.0 s;
    }),
    (λ a. (tenant_test.1 a.tenant, role_test.1 a.role, scope_test.1 a.business_scope)),
  )

  -- A call may run at once exactly if its tenant, one of its roles and its business scope are
  -- admitted and the tool needs no approval; it needs an approval exactly if they are admitted and
  -- the tool requires one, has side effects or is of high or critical risk. All other calls are
  -- denied.
  pub evaluate_iff :
      ((evaluate r c scope).action ≡ allow ↔ IsAdmitted r c scope × (needs_approval r ≡ false))
      × ((evaluate r c scope).action ≡ require_approval
          ↔ IsAdmitted r c scope × (needs_approval r ≡ true))
      × ((evaluate r c scope).action ≡ deny ↔ ¬ IsAdmitted r c scope)
  evaluate_iff = rw action_lem (ground (arith, IsAdmitted-iff))
