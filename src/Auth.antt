-- ===== src/Auth.antt =====
-- middleware/auth: how authenticators and policies are combined.
pub mod FirstOf
pub mod Policy
pub mod Enforce
pub mod Guarded
