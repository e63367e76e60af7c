-- ===== src/Observability.antt =====
-- libs/libs/observability and libs/libs/middlewares: the middlewares of a service, and its log.
pub mod Middleware
pub mod MiddlewareLaws
pub mod Formatter
pub mod FormatterLaws
