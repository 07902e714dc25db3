-- ===== src/Bits.antt =====
-- The bitwise operators of C on words that are plain numbers.
mod Step
mod Laws
mod Width
mod Fields
pub use Step.{bit_or_step, bit_and_step}
pub use Laws.*
pub use Width.*
pub use Fields.*
