-- ===== src/Spawn.antt =====
-- src/spawn.c: the child process. What the operating system answers is an argument; what `unspawn`
-- asks of it is a list of calls.
pub mod Ends
use cgr101_scpi.Prelude.{
  ℕ, Bool, true, false, not, Option, some, List, [], ◌∷◌, ◌==◌, ◌&&◌, if◌then◌else◌,
}
use cgr101_scpi.Prelude.Int.{ℤ, pos, pos_part, neg_part}
use cgr101_scpi.Prelude.Fault.{◌>>=◌, ◌>>◌, require}

-- `struct spawn`
pub record Spawn : Type 0 where
  pub stdin : ℕ
  pub stdout : ℕ
  pub stderr : ℕ
  pub pid : ℤ
  pub status : ℕ

-- The read end and the write end that `pipe` makes three times, none where it fails; whether every
-- `cloexec` succeeds; what `fork` returns, 0 in the child; and the `err` of `sigaction`.
pub record Answers : Type 0 where
  pub pstdin : Option (ℕ × ℕ)
  pub pstdout : Option (ℕ × ℕ)
  pub pstderr : Option (ℕ × ℕ)
  pub cloexec : Bool
  pub fork : ℤ
  pub sigaction : Bool

-- What `spawn` does: the child goes on as another program, and the parent has an `err`.
pub data Forked : Type 0 where
  child : Forked
  parent : Bool → Spawn → Forked

abbrev pub same_pid : ℤ → ℤ → Bool
same_pid a b = pos_part a == pos_part b && neg_part a == neg_part b

-- `spawn`; the flag says that `spawn_sigdata` is set.
unfoldable pub spawn : Bool → Answers → Option Forked
spawn sigdata a = do
  require (not sigdata)
  (in_read, in_write) ← a.pstdin
  (out_read, out_write) ← a.pstdout
  (err_read, err_write) ← a.pstderr
  require a.cloexec
  some (
      if same_pid a.fork (pos 0)
      then child
      else parent a.sigaction (record {
        stdin = in_write;
        stdout = out_read;
        stderr = err_read;
        pid = a.fork;
        status = 0;
      }))

pub data Call : Type 0 where
  kill : ℤ → Call
  close : ℕ → Call

-- `unspawn`
unfoldable pub unspawn : Spawn → List Call
unspawn s =
    if same_pid s.pid (pos 0)
    then []
    else kill s.pid ∷ close s.stdin ∷ close s.stdout ∷ close s.stderr ∷ []

-- One round of its loop, with the test made.
abbrev pub reap : Bool → ℕ → Spawn → Spawn
reap mine status s = if mine then record s { status = status; pid = pos 0 } else s

-- `spawn_sigchld` with what `waitpid` returns in its loop: the children that have ended, and their
-- statuses.
unfoldable pub sigchld : List (ℤ × ℕ) → Spawn → Spawn
sigchld [] s = s
sigchld ((pid, status) ∷ rest) s = sigchld rest (reap (same_pid pid s.pid) status s)
