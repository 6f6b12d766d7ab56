-- ===== src/StringUtil.antt =====
-- `StringUtil` of src/common/string_util.cppm. A `std::string` is its bytes; the locale is "C", and the tests of the
-- code tell letters and digits apart from all other bytes alike for signed and unsigned characters.
pub mod Search
pub mod Case
pub mod Trimming
pub mod Tokens
pub mod Conversion
pub mod CheckStr
