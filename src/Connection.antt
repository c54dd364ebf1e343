-- ===== src/Connection.antt =====
-- The TLS connections of BearTLS/wm_https.c.
pub mod Platform
pub mod Connect
pub mod Records
pub mod Open
pub mod Transfer
pub mod Exchange
pub mod Streams
pub mod Delivery
pub mod Held
pub mod Balance
pub mod Kept
pub mod Leaks
pub mod Response
pub mod Answer
pub mod Progress
pub mod Ends
pub mod Requests
pub mod Budget
pub mod Returns
pub mod Fields
pub mod Agreement
