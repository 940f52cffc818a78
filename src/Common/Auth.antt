-- ===== src/Common/Auth.antt =====
-- application/common/auth.py: the scope and the owner checks.
use web_access_mcp_server.Base.{String, Bool, ◌&&◌, not, List, any, str_eq}

-- `scope in scopes`
unfoldable pub has_scope : String → List String → Bool
has_scope scope scopes = any (λ s. str_eq s scope) scopes

-- `false` where `require_scope` raises
unfoldable pub require_scope : List String → String → Bool
unfolding has_scope
require_scope scopes required_scope =
    not (not (has_scope "*" scopes) && not (has_scope required_scope scopes))

-- `false` where `require_owner` raises
unfoldable pub require_owner : String → String → Bool
require_owner principal_id owner_principal_id = str_eq principal_id owner_principal_id

-- `AuthenticationFailure`
pub data AuthenticationFailure : Type 0 where
  missing_credentials invalid_credentials expired_credentials : AuthenticationFailure
  credential_disabled insufficient_scope owner_access_denied : AuthenticationFailure

-- `error.code.value`
abbrev pub failure_value : AuthenticationFailure → String
failure_value missing_credentials = "missing_credentials"
failure_value invalid_credentials = "invalid_credentials"
failure_value expired_credentials = "expired_credentials"
failure_value credential_disabled = "credential_disabled"
failure_value insufficient_scope = "insufficient_scope"
failure_value owner_access_denied = "owner_access_denied"
