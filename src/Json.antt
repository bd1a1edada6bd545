-- ===== src/Json.antt =====
-- JSON values: `Value` has the data and the operations, `Laws` what they do.
pub mod Value
pub mod Laws
