-- ===== src/CertStore.antt =====
-- The certificate store of BearTLS/wm_cert_store.c.
pub mod Interface
pub mod Paths
pub mod Locate
pub mod Pem
pub mod Anchor
pub mod File
pub mod Load
pub mod Search
pub mod Name
pub mod Build
pub mod Filling
pub mod Resources
pub mod Documented
pub mod Start
pub mod Kept
pub mod Client
pub mod Marks
pub mod Room
