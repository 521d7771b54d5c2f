-- ===== src/Prelude/Bits.antt =====
-- `^`, `&` and `|` at variables: one equation for the lowest digit each, and the laws by recursion
-- on the digits.
mod Digits
pub mod Xor
pub mod Fields
pub use Digits.*
pub use Prim.Native.Nat.{bit_and, bit_or, bit_xor}
