-- ===== src/Script.antt =====
-- src/commands/ScriptParser.cpp: the text of a command block becomes a tree of commands. The
-- children go from the text to its lines, from a line to a command, and from the lines to the tree.
pub mod Lines
pub mod Patterns
pub mod Simple
pub mod Blocks
pub mod Headers
pub mod Nesting
pub mod RoundTrip
pub mod Fuel
mod Tests
