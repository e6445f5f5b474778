-- ===== src/Go.antt =====
-- What the source uses of Go's standard library, over the bytes of a string: `strings` and
-- `strconv`. Letters are the ASCII ones.
pub mod Strings
pub mod Strconv
