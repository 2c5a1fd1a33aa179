-- ===== src/Base64.antt =====
-- Base64 text: ffi/src/lib.rs encodes and decodes it, client/src/client.rs decodes it. A text is the
-- list of its bytes.
pub mod Codec
mod Bits
pub mod RoundTrip
pub mod Agree
