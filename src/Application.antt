-- ===== src/Application.antt =====
-- internal/link/application: the use cases, over the interfaces of the ports.
pub mod Management
pub mod Concurrent
pub mod Creation
pub mod Cache
pub mod Redirect
pub mod Lookups
