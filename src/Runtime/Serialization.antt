-- ===== src/Runtime/Serialization.antt =====
-- runtime/serialization.py: how arguments and results of remote calls cross the wire as JSON.
pub mod Values
pub mod Encode
pub mod Decode
pub mod RoundTrip
pub mod Sample
mod Tests
