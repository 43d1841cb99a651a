-- ===== src/Oauth.antt =====
-- src/oauth.
pub mod Pkce
pub mod Errors
pub mod Scopes
pub mod PermissionRules
pub mod UserTokenPolicy
pub mod Redirect
pub mod Domain
pub mod Resources
pub mod Consent
pub mod CodeGrant
pub mod DeviceGrant
pub mod RefreshGrant
pub mod RequestLimits
pub mod Revoke
pub mod Authorize
pub mod Tokens
pub mod DeviceAuthorization
