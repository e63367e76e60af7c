-- ===== src/Auth.antt =====
-- services/auth_service: users and refresh tokens; and libs/libs/auth: the checks of access tokens.
pub mod Repository
pub mod Service
pub mod Laws
pub mod Provider
pub mod Api
pub mod ApiLaws
pub mod Sessions
