-- ===== src/Auth.antt =====
-- Signing in and the stored session: frontend/lib/auth.
pub mod Session
pub mod Account
pub mod SignIn
pub mod Verification
pub mod OAuth
pub mod SignUp
pub mod Profile
pub mod Identity
pub mod CreditReset
