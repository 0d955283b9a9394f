-- ===== src/Bits.antt =====
-- Bits of machine words: `testbit` reads one bit, and each of `&`, `|`, `^`, `!` is described by
-- the bits of its result (Bits/Laws). Bits/Step drops the fuel of the native operations.
mod Step
mod Defs
mod Laws
mod Single
mod Fields
unfoldable pub use Defs.*
pub use Step.{bit_or_step}
pub use Laws.*
pub use Single.*
pub use Fields.*
