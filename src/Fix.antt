-- ===== src/Fix.antt =====
-- common/src/common_fix and exchange/exchange_fix: messages as bytes.
pub mod Text
pub mod Builder
pub mod Framer
pub mod Values
pub mod Requests
pub mod Sending
pub mod Session
pub mod Reports
pub mod Reading
pub mod Server
