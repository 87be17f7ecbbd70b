-- ===== src/Go.antt =====
-- What the program uses of Go's standard library: strings, strconv and net, over ASCII texts.
pub mod Strings
pub mod Strconv
pub mod Net
pub mod Tests
