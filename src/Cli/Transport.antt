-- ===== src/Cli/Transport.antt =====
-- `write_all`, `read_response`, `connect_to_daemon` and `send_daemon_command` of src/cli/main.cpp.
use ahk_unix.Base.{
  ℕ, some, none, Bool, true, false, List, [], ◌∷◌, ◌++◌, ◌==◌, if◌then◌else◌, Bytes, take, drop,
  codes, Result, ok, err, sys_error, ◌>>=◌,
}
use ahk_unix.Text.Chars.{starts_with}
use ahk_unix.Cli.{
  Write, wrote, write_interrupted, write_failed, Receive, got, at_end, receive_interrupted,
  receive_failed, System, Ended, cout, cerr,
}

-- The bytes written. Behind the end of the outcomes `write` fails.
unfoldable pub write_all : List Write → Bytes → Result Bytes
write_all [] [] = ok []
write_all [] (c ∷ message) = err (sys_error (codes "write"))
write_all (write ∷ writes) [] = ok []
write_all (wrote n ∷ writes) (c ∷ message) = elim (n == 0) [
  | true ↦ err (sys_error (codes "write"))
  | false ↦ (write_all writes (drop n (c ∷ message)) >>= λ rest. ok (take n (c ∷ message) ++ rest))
]
write_all (write_interrupted ∷ writes) (c ∷ message) = write_all writes (c ∷ message)
write_all (write_failed ∷ writes) (c ∷ message) = err (sys_error (codes "write"))

-- Behind the end of the outcomes the server has closed.
unfoldable pub read_loop : List Receive → Bytes → Result Bytes
read_loop [] response = ok response
read_loop (got bytes ∷ receives) response = read_loop receives (response ++ bytes)
read_loop (at_end ∷ receives) response = ok response
read_loop (receive_interrupted ∷ receives) response = read_loop receives response
read_loop (receive_failed ∷ receives) response = err (sys_error (codes "read"))

unfoldable pub read_response : List Receive → Result Bytes
unfolding read_loop
read_response receives = read_loop receives []

unfoldable pub response_is_error : Bytes → Bool
unfolding starts_with
response_is_error response = starts_with response (codes "ERR")

-- How the client ends on a response.
unfoldable pub ended_by : Bytes → Ended
unfolding response_is_error
ended_by response =
    if response_is_error response
    then record { status = 1; output = cerr response }
    else record { status = 0; output = cout response }

unfoldable pub connect_to_daemon : System → Result ℕ
connect_to_daemon system = elim system.socket [
  | none ↦ err (sys_error (codes "socket"))
  | some fd ↦ if system.connects then ok fd else err (sys_error (codes "connect /tmp/ahkunix.sock"))
]

unfoldable pub send_daemon_command : System → Bytes → Result Ended
unfolding connect_to_daemon write_all read_response ended_by
send_daemon_command system command = do
  _ ← connect_to_daemon system
  written ← write_all system.writes command
  response ← read_response (system.receives written)
  ok (ended_by response)
