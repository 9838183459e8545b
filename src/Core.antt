-- ===== src/Core.antt =====
-- apps/core: the error values of the API, and the monad in which the services are written.
pub mod Errors
pub mod Exec
