-- ===== src/Candef.antt =====
-- The generated CAN library (candef.h, the submodule can-definitions) as the firmware uses it: for
-- each frame its identifier, its length and its packing function, and one encoding function for
-- each signal. None of this is under src/, so it is a parameter of the model.
mod Structs
mod Numbers
mod Library
pub use Structs.*
pub use Numbers.*
pub use Library.*
