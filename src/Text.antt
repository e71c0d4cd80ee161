-- ===== src/Text.antt =====
-- src/StringUtil.cpp, and what the sources use of <cctype>, <string>, <sstream> and <cstdlib>.
pub mod Chars
pub mod Find
pub mod Token
pub mod Trim
pub mod Number
pub mod Decimal
pub mod Regex
