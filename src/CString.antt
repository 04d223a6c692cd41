-- ===== src/CString.antt =====
-- The functions of the C library that the firmware calls, on text as a list of bytes. A `char*`
-- into a string is the suffix that it points to, and NULL is `none`.
pub mod Search
pub mod Number
pub mod Format
pub mod Lines
pub mod Parts
pub mod Prefix
