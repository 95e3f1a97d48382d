-- ===== src/Identity.antt =====
-- Who a request is: the browser sessions of domains/identity.
pub mod Tables
pub mod Sessions
pub mod Laws
pub mod Login
pub mod Examples
