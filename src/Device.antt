-- ===== src/Device.antt =====
-- The devices: src/UinputKeyboard.cpp, src/EvdevKeyboard.cpp, src/Clipboard.cpp and
-- src/KeyboardDetect.cpp.
pub mod Output
pub mod Backend
pub mod Paste
pub mod Detect
mod Pipes
pub mod Input
pub mod Uinput
pub mod Enabled
mod UinputTests
mod Held
mod Tests
