-- ===== src/Ipc.antt =====
-- src/daemon/IpcServer.cpp and include/ahkunix/daemon/IpcServer.hpp: the server's state and the three
-- callbacks that it is started with.
pub mod Request
pub mod Transport
pub mod Client
pub mod Lifecycle
mod Loop
pub mod Chunks
pub mod Sending
mod Replies
pub mod Normal
mod Tests
use ahk_unix.Base.{Bool, Option, Bytes, Result, Error}

-- What a call of `on_load` does: it returns, throws a std::exception, or throws something else.
pub data Load : Type 0 where
  returned : Load
  threw : Error → Load
  threw_unknown : Load

-- The callbacks act on a state of the program around the server. `none` is an empty std::function.
pub record Callbacks (World : Type 0) : Type 0 where
  pub on_stop : Option (World → World)
  pub on_load : Option (Bytes → World → Load × World)
  pub on_status : Option (World → Result Bytes)

-- The server and the program around it.
pub record Server (World : Type 0) : Type 0 where
  pub callbacks : Callbacks World
  pub running : Bool
  pub world : World
