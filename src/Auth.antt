-- ===== src/Auth.antt =====
-- The auth service (auth/src): scopes, credentials, tokens and the image list.
pub mod Scope
pub mod ClusterPat
pub mod Credentials
pub mod Profile
pub mod Validation
pub mod Setup
pub mod KeyId
pub mod Token
pub mod Images
