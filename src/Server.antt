-- ===== src/Server.antt =====
-- src/server.c: the loop that waits for descriptors and runs the workers that are due. `select` is
-- a function from one more than the largest descriptor and the set that it gets to what it answers;
-- each round of the loop has its own. Descriptors are below FD_SETSIZE. The verbose messages are
-- left out.

pub mod Table
pub mod Agree
pub mod Serve
pub mod Rounds
use cgr101_scpi.Prelude.{
  ℕ, zero, suc, ◌+◌, Bool, true, false, not, Option, none, some, List, [], ◌∷◌, ltb, ◌==◌, ◌&&◌,
  ◌||◌, if◌then◌else◌,
}
use cgr101_scpi.Prelude.Int.{ℤ, pos, pos_part, ltb_ℤ}
use cgr101_scpi.Prelude.Fault.{◌>>=◌}
use cgr101_scpi.Worker.{Worker, worker_getfd, worker_ready, worker_run_ready}

-- `fd_set`
abbrev pub FdSet : Type 0
FdSet = ℕ → Bool

abbrev pub fd_zero : FdSet
fd_zero fd = false

-- What `select` answers: the set as it leaves it, an error with EINTR, or another error. An error
-- leaves the set as it was.
pub data Selected : Type 0 where
  answered : FdSet → Selected
  interrupted failed : Selected

abbrev pub Select : Type 0
Select = ℕ → FdSet → Selected

-- `max_fd + 1` and the set so far, and the step for one more descriptor.
abbrev pub Waits : Type 0
Waits = ℕ × FdSet

abbrev pub add_fd : ℕ → Waits → Waits
add_fd fd (n, fds) = (if ltb n (fd + 1) then fd + 1 else n, λ x. x == fd || fds x)

-- The listening socket, where there is one.
abbrev pub listening : ℕ → Waits
listening listen_fd = if listen_fd == 0 then (0, fd_zero) else add_fd listen_fd (0, fd_zero)

-- One round of the loop as the surroundings see it: `server_exit` and `select`.
pub record Round : Type 0 where
  pub server_exit : Bool
  pub select : Select

-- Where the loop stands when it has used its rounds: it has ended with an `err`, or it goes on.
pub data Status : Type 0 where
  ended : Bool → Status
  running : Status

-- `server_accept` where `accept` returned that number: its `err`. The connection is not kept.
unfoldable pub server_accept : ℤ → Bool
server_accept clifd = not (ltb_ℤ (pos 0) clifd)

module _ {S : Type 0} where
  -- The first loop of `server_select` over the workers.
  unfoldable pub gather : ℕ → ℕ → Worker S → Waits → Option Waits
  gather zero idx k f = some f
  gather (suc left) idx k f = do
    fd ← worker_getfd k idx
    gather left (idx + 1) k (add_fd (pos_part fd) f)

  abbrev pub set_ready : ℕ → Worker S → Option (Bool × Worker S)
  set_ready idx k = do k' ← worker_ready k idx; some (true, k')

  -- A worker whose descriptor is in the set is marked; the flag is SERVER_WORKER.
  abbrev pub mark_one : ℕ → FdSet → Bool × Worker S → Option (Bool × Worker S)
  mark_one idx fds (event, k) = do
    fd ← worker_getfd k idx
    (if fds (pos_part fd) then set_ready idx k else some (event, k))

  -- The second loop.
  unfoldable pub mark : ℕ → ℕ → FdSet → Bool × Worker S → Option (Bool × Worker S)
  mark zero idx fds r = some r
  mark (suc left) idx fds r = do r' ← mark_one idx fds r; mark left (idx + 1) fds r'

  -- What `server_select` does behind `select`: SERVER_ACCEPT, SERVER_WORKER and the workers.
  abbrev pub flags : ℕ → FdSet → Worker S → Option (Option (Bool × Bool) × Worker S)
  flags listen_fd fds k = do
    (event, k') ← mark k.count 0 fds (false, k)
    some (some (not (listen_fd == 0) && fds listen_fd, event), k')

  abbrev pub after_select :
      ℕ → Selected → FdSet → Worker S → Option (Option (Bool × Bool) × Worker S)
  after_select listen_fd (answered fds) old k = flags listen_fd fds k
  after_select listen_fd interrupted old k = flags listen_fd old k
  after_select listen_fd failed old k = some (none, k)

  -- `server_select`: its flags, none where it returns a negative number.
  unfoldable pub server_select : ℕ → Select → Worker S → Option (Option (Bool × Bool) × Worker S)
  unfolding gather mark
  server_select listen_fd select k = do
    (n, fds) ← gather k.count 0 k (listening listen_fd)
    after_select listen_fd (select n fds) fds k

  -- `server_action`. It calls `server_accept` for the first flag, which changes nothing, and ignores
  -- its error.
  unfoldable pub server_action : Bool → Bool → Worker S → S → Option (Bool × Worker S × S)
  server_action accept event k s = if event then worker_run_ready k s else some (false, k, s)

  -- `server_quit`; `quit` is `info->quit`.
  abbrev pub server_quit : (S → Bool) → Round → S → Bool
  server_quit quit r s = r.server_exit || quit s

  module _ (listen_fd : ℕ) (quit : S → Bool) where
    -- `server_loop` for the rounds that are given.
    unfoldable pub server_loop : List Round → Worker S → S → Option (Status × Worker S × S)
    unfolding server_select server_action
    server_loop [] k s = some (running, k, s)
    server_loop (r ∷ rs) k s = elim (server_quit quit r s) [
      | true ↦ some (ended false, k, s)
      | false ↦ (do
        (event, k₁) ← server_select listen_fd r.select k
        (accept, work) ← event
        (err, k₂, s') ← server_action accept work k₁ s
        elim err [ true ↦ some (ended true, k₂, s') | false ↦ server_loop rs k₂ s' ])
    ]
