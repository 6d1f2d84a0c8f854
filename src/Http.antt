-- ===== src/Http.antt =====
-- NETLIB/application/http: parsing requests and printing responses.
pub mod Examples
pub mod Request
pub mod Context
pub mod Progress
pub mod RoundTrip
pub mod Faults
