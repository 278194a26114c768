-- ===== src/Bits.antt =====
-- Laws of the bitwise operations, from the recursion on binary digits that they stand for: one
-- equation for the lowest digit, and from it bounds and algebra by induction on a bound.
mod Step
mod Xor
pub use Step.*
pub use Xor.*
