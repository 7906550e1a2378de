-- ===== src/Domain/Roles.antt =====
-- services/control-plane/src/domain/roles.ts: the roles, and those that a membership can hold.

pub data Role : Type 0 where
  tenant_admin member platform_operator : Role

pub data MembershipRole : Type 0 where
  tenant_admin member : MembershipRole

-- The type of a membership's role is a part of the type of roles.
abbrev pub role_of_membership : MembershipRole → Role
role_of_membership MembershipRole.tenant_admin = Role.tenant_admin
role_of_membership MembershipRole.member = Role.member
