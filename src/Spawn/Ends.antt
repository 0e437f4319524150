-- ===== src/Spawn/Ends.antt =====
-- src/spawn.c: what `unspawn` does to a child that has ended, and after a failed `fork`.
use cgr101_scpi.Prelude.{ℕ, ◌≡◌, refl, Bool, true, false, some, List, [], ◌∷◌, ◌||◌, if◌then◌else◌}
use cgr101_scpi.Prelude.Int.{ℤ, pos, negsuc}
use cgr101_scpi.Spawn.{Spawn, Answers, parent, same_pid, reap, spawn, kill, close, unspawn, sigchld}

-- The child is among those that have ended.
unfoldable pub collected : ℤ → List (ℤ × ℕ) → Bool
collected pid [] = false
collected pid ((p, status) ∷ rest) = same_pid p pid || collected pid rest

reap-zero :
    (mine : Bool) (status : ℕ) (s : Spawn)
    → same_pid s.pid (pos 0) ≡ true
    → same_pid (reap mine status s).pid (pos 0) ≡ true
reap-zero true status s e = refl
reap-zero false status s e = e

sigchld_ended :
    (ended : List (ℤ × ℕ)) (s : Spawn)
    → same_pid s.pid (pos 0) ≡ true
    → unspawn (sigchld ended s) ≡ []
unfolding sigchld unspawn
sigchld_ended [] s e = rw e refl
sigchld_ended ((p, status) ∷ rest) s e =
    sigchld_ended rest (reap (same_pid p s.pid) status s) (reap-zero (same_pid p s.pid) status s e)

step :
    (mine : Bool) (status : ℕ) (rest : List (ℤ × ℕ)) (s : Spawn)
    → unspawn (sigchld rest s) ≡ (if collected s.pid rest then [] else unspawn s)
    → unspawn (sigchld rest (reap mine status s))
      ≡ (if mine || collected s.pid rest then [] else unspawn s)
step true status rest s ih = sigchld_ended rest (reap true status s) refl
step false status rest s ih = ih

-- Whatever children end, in whatever order: where ours is among them, `unspawn` signals no process
-- and closes nothing; where it is not, `unspawn` does what it would have done before.
pub unspawn-sigchld :
    (ended : List (ℤ × ℕ)) (s : Spawn)
    → unspawn (sigchld ended s) ≡ (if collected s.pid ended then [] else unspawn s)
unfolding sigchld collected unspawn
unspawn-sigchld [] s = refl
unspawn-sigchld ((p, status) ∷ rest) s =
    step (same_pid p s.pid) status rest s (unspawn-sigchld rest s)

-- A `fork` that fails is not noticed: where the pipes are made, `spawn` returns what `sigaction`
-- returns, and `unspawn` sends the signal to process -1, which stands for every process.
pub spawn_fork_fails :
    (a : Answers) (i o e : ℕ × ℕ)
    → a.pstdin ≡ some i
    → a.pstdout ≡ some o
    → a.pstderr ≡ some e
    → a.cloexec ≡ true
    → a.fork ≡ negsuc 0
    → (s : Spawn) × (spawn false a ≡ some (parent a.sigaction s))
      × (unspawn s ≡ kill (negsuc 0) ∷ close i.1 ∷ close o.0 ∷ close e.0 ∷ [])
unfolding spawn unspawn
spawn_fork_fails a i o e hi ho he hc hf = (
  record { stdin = i.1; stdout = o.0; stderr = e.0; pid = negsuc 0; status = 0 },
  rw (hi, ho, he, hc, hf) refl,
  refl,
)
