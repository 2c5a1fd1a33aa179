-- ===== src/Wire.antt =====
-- What the controller and its Rust client send each other: the enumerations and messages of
-- proto/v1/controller.proto and the conversions of both sides.
pub mod Enums
pub mod Messages
pub mod RoundTrip
