-- ===== src/Gateway.antt =====
-- The Terminal Gateway (gateway/).
pub mod BrowserSessions
pub mod Handover
pub mod UserStore
pub mod Workspaces
pub mod SessionIssuer
pub mod Identity
pub mod Routing
pub mod Exchange
pub mod Handler
pub mod Bridge
mod Examples
