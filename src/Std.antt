-- ===== src/Std.antt =====
-- What the program uses of Rust's standard library and of the kernel behind it: environment
-- variables, `str::parse`, and the file descriptors of a process.
pub mod Utf8
pub mod Number
pub mod Env
pub mod Fd
