-- ===== src/Auth.antt =====
-- Who a request is from (apps/api/internal/auth): sessions, cookies, revocations and service tokens.
-- A text is a list of bytes, a time is in Unix seconds. SHA-256, HMAC, HKDF, AES-GCM, argon2 and
-- encoding/json are parameters.
pub mod Codec
pub mod Session
pub mod SessionV2
pub mod Cookie
pub mod Token
pub mod TokenStore
pub mod Revocation
pub mod Store
pub mod Handlers
pub mod Login
pub mod Middleware
