-- ===== src/Ipc/Lifecycle.antt =====
-- `start`, `setup_socket` and `stop` of src/daemon/IpcServer.cpp. The outcomes of the calls of the
-- system are the parameter; the join of the worker is left out.
use ahk_unix.Base.{
  Bool, true, false, ◌≡◌, refl, leb, inl, inr, Bytes, length, Bool-cases, Error, runtime_error,
  sys_error, codes, ◌++◌, if◌then◌else◌,
}

-- Whether each call succeeds, in the order in which they are made.
pub record SetupCalls : Type 0 where
  pub socket : Bool
  pub get_flags : Bool
  pub set_flags : Bool
  pub bind : Bool
  pub chmod : Bool
  pub listen : Bool
  pub thread : Bool

-- `running_`, whether `listen_fd_` is open, whether the worker was started, and whether a file stands
-- at the socket's path.
pub record Endpoint : Type 0 where
  pub running : Bool
  pub listening : Bool
  pub worker : Bool
  pub socket_file : Bool

-- The call returns or throws, with the state behind it.
pub data Setup : Type 0 where
  ready : Endpoint → Setup
  thrown : Error → Endpoint → Setup

-- A call, its name in the error, and what follows when it succeeds.
unfoldable pub called : Bool → Bytes → Endpoint → Setup → Setup
called true name s next = next
called false name s next = thrown (sys_error name) s

unfoldable pub set_nonblocking : SetupCalls → Endpoint → Setup → Setup
unfolding called
set_nonblocking calls s next =
    called calls.get_flags (codes "fcntl F_GETFL") s
      (called calls.set_flags (codes "fcntl F_SETFL") s next)

unfoldable pub setup_socket : Bytes → SetupCalls → Endpoint → Setup
unfolding called set_nonblocking
setup_socket path calls s =
    let opened = record s { listening = true } in
    let unlinked = record opened { socket_file = false } in
    let bound = record unlinked { socket_file = true } in
    if leb 108 (length path)
    then thrown (runtime_error (codes "IPC socket path is too long: " ++ path)) s
    else called calls.socket (codes "socket") s (
        set_nonblocking calls opened (
          called calls.bind (codes "bind") unlinked (
            called calls.chmod (codes "chmod") bound
              (called calls.listen (codes "listen") bound (ready bound)))))

unfoldable pub close_fd : Endpoint → Endpoint
close_fd s = record s { running = false; listening = false; socket_file = false }

-- `catch (...)` of `start`
unfoldable pub or_close : Setup → Setup
unfolding close_fd
or_close (ready s) = ready s
or_close (thrown e s) = thrown e (close_fd s)

-- `worker_ = std::thread(...)`
unfoldable pub start_worker : SetupCalls → Setup → Setup
unfolding called
start_worker calls (ready s) =
    called calls.thread (codes "thread") s (ready (record s { worker = true }))
start_worker calls (thrown e s) = thrown e s

unfoldable pub start : Bytes → SetupCalls → Endpoint → Setup
unfolding setup_socket start_worker or_close
start path calls s = elim s.running [
  | true ↦ thrown (runtime_error (codes "IPC server is already running")) s
  | false ↦ or_close (start_worker calls (setup_socket path calls (record s { running = true })))
]

unfoldable pub stop : Endpoint → Endpoint
stop s = record s { running = false; listening = false; worker = false; socket_file = false }

abbrev pub stopped : Endpoint
stopped = record { running = false; listening = false; worker = false; socket_file = false }

abbrev started : Endpoint
started = record { running = true; listening = true; worker = true; socket_file = true }

-- What a start from the stopped state leaves: everything, or nothing.
abbrev pub AllOrNothing : Setup → Type 0
AllOrNothing (ready s) = s ≡ started
AllOrNothing (thrown e s) = s ≡ stopped

-- What holds of a throw and of what follows holds of a call.
called-cases :
    (Holds : Setup → Type 0) (b : Bool) (name : Bytes) (s : Endpoint) (next : Setup)
    → Holds (thrown (sys_error name) s)
    → Holds next
    → Holds (called b name s next)
unfolding called
called-cases Holds true name s next h k = k
called-cases Holds false name s next h k = h

-- A start of a stopped server leaves it running, listening and with its file, or throws and leaves none
-- of them.
pub start-AllOrNothing :
    (path : Bytes) (calls : SetupCalls) → AllOrNothing (start path calls stopped)
unfolding start setup_socket set_nonblocking start_worker or_close close_fd
start-AllOrNothing path calls = elim (Bool-cases (leb 108 (length path))) [
  | inl e ↦ rw (e, setup_socket) refl
  | inr e ↦
      let Holds : Setup → Type 0 = λ x. AllOrNothing (or_close (start_worker calls x)) in
      let worker =
        called-cases (λ x. AllOrNothing (or_close x)) calls.thread (codes "thread") _ _ refl refl in
      let listens = called-cases Holds calls.listen (codes "listen") _ _ refl worker in
      let changes = called-cases Holds calls.chmod (codes "chmod") _ _ refl listens in
      let binds = called-cases Holds calls.bind (codes "bind") _ _ refl changes in
      let sets = called-cases Holds calls.set_flags (codes "fcntl F_SETFL") _ _ refl binds in
      let gets = called-cases Holds calls.get_flags (codes "fcntl F_GETFL") _ _ refl sets in
      rw (e, setup_socket) (called-cases Holds calls.socket (codes "socket") _ _ refl gets)
]
