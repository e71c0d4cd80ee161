-- ===== src/Session.antt =====
-- A call of the client against a running daemon: src/cli/main.cpp, src/daemon/IpcServer.cpp and the
-- callbacks of src/daemon/main.cpp together.
mod Request
mod Load
mod Lint
mod Tests
use ahk_unix.Base.{◌++◌, Bytes, codes}

-- What `ahkunixctl load` writes to the socket.
abbrev pub load_request : Bytes → Bytes
load_request path = codes "LOAD " ++ path ++ codes "\n"
