-- ===== src/Http.antt =====
-- The HTTP client: frontend/lib/http/client.ts. Axios itself is outside: what it sends is a result
-- of these functions, and what it answers is their argument.
pub mod Renewal
pub mod Interceptors
mod Tests
pub mod Services
