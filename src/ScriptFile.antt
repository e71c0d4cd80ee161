-- ===== src/ScriptFile.antt =====
-- `AhkParser::parse_file` in src/AhkParser.cpp: the lines of a script become hotstrings. The children
-- classify lines, find the body of a trigger, and run the loop over the lines.
pub mod Classify
pub mod Body
pub mod Loop
pub mod Order
pub mod Picks
pub mod Fuel
pub mod Tests
