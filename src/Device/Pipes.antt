-- ===== src/Device/Pipes.antt =====
-- `run_with_stdin` and `read_stdout` of src/Clipboard.cpp, over the outcomes of the calls.
use ahk_unix.Base.{
  ℕ, Bool, not, List, [], ◌∷◌, ◌++◌, ◌≡◌, ap, ◌∙◌, ◌==◌, if◌then◌else◌, Bytes, take, drop,
  take-append-drop, Result, ok, err, sys_error, codes, throw, ◌>>=◌, >>=-eq-ok,
}

pub data Write : Type 0 where
  wrote : ℕ → Write
  write_interrupted : Write
  write_failed : Write

-- What the program receives. A pipe that takes no byte and reports no error is tried again; behind the
-- end of the outcomes `write` fails.
unfoldable pub write_loop : List Write → Bytes → Result Bytes
write_loop [] [] = ok []
write_loop [] (c ∷ input) = err (sys_error (codes "write clipboard stdin"))
write_loop (write ∷ writes) [] = ok []
write_loop (wrote n ∷ writes) (c ∷ input) =
    write_loop writes (drop n (c ∷ input)) >>= λ rest. ok (take n (c ∷ input) ++ rest)
write_loop (write_interrupted ∷ writes) (c ∷ input) = write_loop writes (c ∷ input)
write_loop (write_failed ∷ writes) (c ∷ input) = err (sys_error (codes "write clipboard stdin"))

-- `waitpid`: the status of a program that has exited, or that was ended otherwise.
pub data Wait : Type 0 where
  exited : ℕ → Wait
  killed : Wait
  wait_interrupted : Wait
  wait_failed : Wait

unfoldable pub wait_loop : List Wait → Result ℕ
wait_loop [] = err (sys_error (codes "waitpid clipboard backend"))
wait_loop (exited status ∷ waits) =
    if status == 0 then ok 0 else throw "clipboard backend failed" []
wait_loop (killed ∷ waits) = throw "clipboard backend failed" []
wait_loop (wait_interrupted ∷ waits) = wait_loop waits
wait_loop (wait_failed ∷ waits) = err (sys_error (codes "waitpid clipboard backend"))

-- The calls in front of the write: the pipe, the actions of the spawn, the spawn.
pub record Spawn : Type 0 where
  pub pipe : Bool
  pub file_actions : Bool
  pub spawned : Bool

-- The text is written, and the end of the program awaited.
unfoldable pub feed : List Write → List Wait → Bytes → Result Bytes
unfolding write_loop wait_loop
feed writes waits input = do received ← write_loop writes input; _ ← wait_loop waits; ok received

unfoldable pub run_with_stdin : Spawn → List Write → List Wait → Bytes → Result Bytes
unfolding feed
run_with_stdin spawn writes waits input =
    if not spawn.pipe
    then err (sys_error (codes "pipe clipboard stdin"))
    else if not spawn.file_actions
    then err (sys_error (codes "posix_spawn_file_actions_init"))
    else if not spawn.spawned
    then err (sys_error (codes "posix_spawnp clipboard backend"))
    else feed writes waits input

-- When the loop returns, the program has received the whole text.
pub write_loop-whole :
    (writes : List Write) (input : Bytes) {received : Bytes}
    → write_loop writes input ≡ ok received
    → received ≡ input
unfolding write_loop
write_loop-whole [] [] e = cc
write_loop-whole [] (c ∷ input) e = cc
write_loop-whole (write ∷ writes) [] e = cc
write_loop-whole (wrote n ∷ writes) (c ∷ input) e =
    let (rest, e1, e2) =
      >>=-eq-ok (write_loop writes (drop n (c ∷ input))) (λ rest. ok (take n (c ∷ input) ++ rest))
        e in
    let same = write_loop-whole writes (drop n (c ∷ input)) e1 in
    let built = ap (λ t. take n (c ∷ input) ++ t) same ∙ take-append-drop n (c ∷ input) in cc
write_loop-whole (write_interrupted ∷ writes) (c ∷ input) e = write_loop-whole writes (c ∷ input) e
write_loop-whole (write_failed ∷ writes) (c ∷ input) e = cc

-- `fread`: a buffer that is filled, or fewer bytes with what `feof` and `ferror` say behind them.
pub data Piece : Type 0 where
  filled : Bytes → Piece
  last : Bytes → Piece
  read_interrupted : Bytes → Piece
  read_failed : Bytes → Piece
  short : Bytes → Piece

-- Behind the end of the list the pipe is at its end.
unfoldable pub read_loop : List Piece → Bytes → Bytes
read_loop [] output = output
read_loop (filled bytes ∷ pieces) output = read_loop pieces (output ++ bytes)
read_loop (last bytes ∷ pieces) output = output ++ bytes
read_loop (read_interrupted bytes ∷ pieces) output = read_loop pieces (output ++ bytes)
read_loop (read_failed bytes ∷ pieces) output = output ++ bytes
read_loop (short bytes ∷ pieces) output = read_loop pieces (output ++ bytes)

-- The argument tells whether `popen` succeeds.
unfoldable pub read_stdout : Bool → List Piece → Bytes
unfolding read_loop
read_stdout opened pieces = if opened then read_loop pieces [] else []
