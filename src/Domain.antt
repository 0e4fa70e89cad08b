-- ===== src/Domain.antt =====
-- internal/link/domain: the link aggregate, its status, its destination and the redirect mapping.
pub mod Status
pub mod Destination
pub mod Link
pub mod Mapping
