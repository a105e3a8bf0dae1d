-- ===== src/Golang.antt =====
-- What the program uses of Go and its standard library: slices with a capacity, decimal numbers
-- (`%d`, `strconv`) and `strings.Index`.
pub mod Slice
pub mod Decimal
pub mod Index
