-- ===== src/Serializer.antt =====
-- src/ByteArraySerializer.h, src/ByteArraySerializer.cpp: Variants written to a byte array and read
-- back.
pub mod State
pub mod Raw
pub mod Signature
pub mod Push
pub mod Encode
pub mod Append
pub mod Storable
pub mod Reads
pub mod Values
pub mod RoundTrip
pub mod Canonical
pub mod Interface
pub mod Implementation
pub mod Pops
pub mod Safety
pub mod Local
pub mod Prefix
pub mod Typed
pub mod Pop
mod Tests
