-- ===== src/Bytes.antt =====
-- What the program uses of Python's standard library on texts and byte strings:
-- `struct.pack(">Q", n)`, `str.encode("utf-8")`, `bytes.decode("utf-8")`, `str(int)`,
-- `bytes.hex()` and `bytes.fromhex`.
pub mod Word
pub mod Utf8
pub mod Decimal
pub mod Hex
pub mod Ascii
