-- ===== src/Api.antt =====
-- api: the HTTP interface.
pub mod Responses
pub mod Handlers
pub mod Browsing
pub mod Bytes
pub mod Auth
pub mod ClientIp
pub mod Router
pub mod Access
pub mod Layers
