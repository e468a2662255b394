-- ===== src/Utils.antt =====
-- src/utils: the string routines, and the helpers that stand on them.
pub mod Decimal
pub mod Stoi
pub mod Split
pub mod StrParse
