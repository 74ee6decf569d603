-- ===== src/Region.antt =====
-- sfizz/Region.h, sfizz/EGDescription.h and the enumerations and constants of sfizz/Defaults.h: what
-- a region of an instrument holds. The fields stand in the groups that Region.h lists them in, and
-- each random distribution is the pair of its bounds. A `uint8_t` and a `uint32_t` are numbers, an
-- `int` is an integer.
pub mod Parts
pub mod Defaults
pub mod Triggers
pub mod Gain
pub mod Parse
pub use Parts.*
