-- ===== src/Ipc/Transport.antt =====
-- `read_command` and `send_response` of src/daemon/IpcServer.cpp, over what the calls of the system
-- return. A list holds one outcome for each round of a loop; behind its end the peer has closed.
use ahk_unix.Base.{
  ℕ, Bool, true, false, List, [], ◌∷◌, ◌++◌, ltb, ◌==◌, if◌then◌else◌, Bytes, is_empty, length, any,
  take, drop, Result, ok, err, sys_error, codes,
}

-- `poll` on the client's socket
pub data Poll : Type 0 where
  ready : Poll
  timed_out : Poll
  poll_interrupted : Poll
  poll_failed : Poll

-- `read`, with the `poll` that follows it when nothing has arrived
pub data Read : Type 0 where
  received : Bytes → Read
  closed : Read
  interrupted : Read
  would_block : Poll → Read
  failed : Read

-- A round goes on with the command read so far, or ends the loop.
pub data Next : Type 0 where
  go_on : Bytes → Next
  finish : Result Bytes → Next

unfoldable pub has_newline : Bytes → Bool
has_newline s = any (λ c. c == b'\n') s

unfoldable pub after_poll : Poll → Bytes → Next
after_poll ready command = go_on command
after_poll timed_out command = finish (ok command)
after_poll poll_interrupted command = go_on command
after_poll poll_failed command = finish (err (sys_error (codes "poll client")))

unfoldable pub after_read : Read → Bytes → Next
unfolding has_newline after_poll
after_read (received bytes) command =
    if has_newline (command ++ bytes)
    then finish (ok (command ++ bytes))
    else go_on (command ++ bytes)
after_read closed command = finish (ok command)
after_read interrupted command = go_on command
after_read (would_block poll) command =
    if is_empty command then after_poll poll command else finish (ok command)
after_read failed command = finish (err (sys_error (codes "read client")))

unfoldable pub read_loop : List Read → Bytes → Result Bytes
unfolding after_read
read_loop [] command = ok command
read_loop (read ∷ reads) command = elim (ltb (length command) 4096) [
  | false ↦ ok command
  | true ↦ elim (after_read read command) [
    | finish result ↦ result
    | go_on longer ↦ read_loop reads longer
  ]
]

unfoldable pub read_command : List Read → Result Bytes
unfolding read_loop
read_command reads = read_loop reads []

-- `send`, with the `poll` that follows it when the socket is full
pub data Send : Type 0 where
  sent : ℕ → Send
  send_interrupted : Send
  full : Poll → Send
  send_failed : Send

unfoldable pub polled : Poll → Bool
polled poll_failed = false
polled _ = true

-- What the peer receives of the text that is still to be sent. `send` takes at most what it is given.
unfoldable pub send_response : List Send → Bytes → Bytes
unfolding polled
send_response [] response = []
send_response (send ∷ sends) [] = []
send_response (sent n ∷ sends) (c ∷ response) = elim (n == 0) [
  | true ↦ []
  | false ↦ take n (c ∷ response) ++ send_response sends (drop n (c ∷ response))
]
send_response (send_interrupted ∷ sends) (c ∷ response) = send_response sends (c ∷ response)
send_response (full poll ∷ sends) (c ∷ response) = elim (polled poll) [
  | true ↦ send_response sends (c ∷ response)
  | false ↦ []
]
send_response (send_failed ∷ sends) (c ∷ response) = []
