-- ===== src/Cli.antt =====
-- src/cli/main.cpp, the client `ahkunixctl`: the calls of the system that it makes, and how it ends.
pub mod Transport
pub mod Lint
pub mod Main
use ahk_unix.Base.{Bool, ℕ, List, Bytes, Option, Result, Error}

-- `write`, and `read` behind the bytes written
pub data Write : Type 0 where
  wrote : ℕ → Write
  write_interrupted : Write
  write_failed : Write

pub data Receive : Type 0 where
  got : Bytes → Receive
  at_end : Receive
  receive_interrupted : Receive
  receive_failed : Receive

-- The calls of the system: `socket` (a descriptor), whether `connect` succeeds, the outcomes of `write`, those of `read` once the
-- bytes are written, std::filesystem::absolute, and the contents of a file.
pub record System : Type 0 where
  pub socket : Option ℕ
  pub connects : Bool
  pub writes : List Write
  pub receives : Bytes → List Receive
  pub absolute : Bytes → Result Bytes
  pub contents : Bytes → Option Bytes

-- What is printed: the usage, a text to std::cout or to std::cerr, or "fatal: " and an exception.
pub data Output : Type 0 where
  usage : Output
  cout : Bytes → Output
  cerr : Bytes → Output
  fatal : Error → Output

pub record Ended : Type 0 where
  pub status : ℕ
  pub output : Output
