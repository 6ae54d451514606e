-- ===== src/Web.antt =====
-- pkg/apiserver and pkg/ui/website: the servers for gRPC and for HTTP, and what the latter answers.
pub mod Http
pub mod Cors
pub mod Site
pub mod Prefixes
pub mod Routes
