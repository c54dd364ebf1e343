-- ===== src/Tests.antt =====
-- The development at concrete inputs.
mod Text
mod Keys
mod Echo
mod Tls
mod Certified
mod Store
mod Setup
