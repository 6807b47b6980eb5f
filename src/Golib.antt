-- ===== src/Golib.antt =====
-- What the program uses of Go's standard library: numbers as text, byte texts, slices and
-- buffered readers.
pub mod Strconv
pub mod Text
pub mod Slice
pub mod Reader
pub mod Sort
pub mod Body
