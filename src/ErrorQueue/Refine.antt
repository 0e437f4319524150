-- ===== src/ErrorQueue/Refine.antt =====
-- src/scpi_error.c: the circular array against the queue that a client sees.
use cgr101_scpi.Prelude.{
  ℕ, ◌+◌, ◌%◌, ◌≤◌, ◌<◌, ◌≡◌, ◌≢◌, refl, ap, List, [], ◌∷◌, none, true, false, Bool, arith, length,
  get_or, set, length-set, get_or-set_self, get_or-set_ne, if◌then◌else◌, ◌==◌, Bool-cases, inl,
  inr, ◌∙◌,
}
use native.Mathlib.Decide.{ℕ_discrete}
use cgr101_scpi.ErrorQueue.{
  ErrQueue, Entry, Reply, no_error, queue_overflow, errmsg, blank, errq_size, slot, init, push, get,
  count,
}
use cgr101_scpi.ErrorQueue.Spec
use cgr101_scpi.ErrorQueue.Spec.{Queue, Call, raise}
use cgr101_scpi.ErrorQueue.Invariant.{
  IsValid, used, distance, window, length-window, window_pos, window-set_outside,
}
use cgr101_scpi.ErrorQueue.Raise.{view, init-IsValid, next_lem, push-IsValid, push_refines}

-- The array after `scpi_error_get` with slot `t` cleared.
abbrev cleared : ErrQueue → List Entry
cleared r = set r.q r.tail (record (slot r r.tail) { syndrome = none })

abbrev taken : ErrQueue → Reply
taken r = record {
  error = (slot r r.tail).error;
  msg = errmsg (slot r r.tail).error;
  syndrome = (slot r r.tail).syndrome;
}

get-taken :
    (r : ErrQueue)
    → IsValid r
    → used r ≢ 0
    → get r ≡ (taken r, record r { q = cleared r; tail = (r.tail + 1) % errq_size })
unfolding get
get-taken r v h = rw (go, next_lem r.tail v.tail_in)
  where
    go : (r.head == r.tail) ≡ false
    go = ground (arith, v)

cleared-length : (r : ErrQueue) → IsValid r → length (cleared r) ≡ errq_size
cleared-length r v = length-set r.q r.tail (record (slot r r.tail) { syndrome = none }) ∙ v.slots

cleared-slot :
    (r : ErrQueue) (i : ℕ)
    → IsValid r
    → i < errq_size
    → (slot r i).syndrome ≡ none
    → (get_or (cleared r) i blank).syndrome ≡ none
cleared-slot r i v h e = elim (ℕ_discrete r.tail i) [
  | yes p ↦ rw (← p) (rw (get_or-set_self r.q r.tail _ blank (omega (arith, v))))
  | no p ↦ rw (get_or-set_ne r.q r.tail i _ blank p) e
]

-- What a read of an empty queue answers, and the slots it leaves.
abbrev spilled : ErrQueue → ErrQueue
spilled r = record r { q = cleared r; overflow = false }

get-empty :
    (r : ErrQueue)
    → IsValid r
    → used r ≡ 0
    → get r ≡ (
      (if r.overflow then Spec.reply queue_overflow none else Spec.reply no_error none),
      spilled r,
    )
unfolding get
get-empty r v h = elim (Bool-cases r.overflow) [
  | inl o ↦ rw (go, o, v.clean r.tail v.tail_in (omega arith))
  | inr o ↦ rw (go, o, v.clean r.tail v.tail_in (omega arith))
]
  where
    go : (r.head == r.tail) ≡ true
    go = ground (arith, v)

cleared-IsValid :
    (r : ErrQueue) (o : Bool) → IsValid r → IsValid (record r { q = cleared r; overflow = o })
cleared-IsValid r o v = record {
  slots = cleared-length r v;
  head_in = v.head_in;
  tail_in = v.tail_in;
  clean = λ i hi u. cleared-slot r i v hi (v.clean i hi u);
}

taken-clean :
    (r : ErrQueue)
    → IsValid r
    → used r ≢ 0
    → (i : ℕ) → i < errq_size
    → distance ((r.tail + 1) % errq_size) r.head ≤ distance ((r.tail + 1) % errq_size) i
    → (get_or (cleared r) i blank).syndrome ≡ none
taken-clean r v h i hi u = elim (ℕ_discrete r.tail i) [
  | yes p ↦ rw (← p) (rw (get_or-set_self r.q r.tail _ blank (omega (arith, v))))
  | no p ↦ cleared-slot r i v hi (v.clean i hi (omega (arith, v)))
]

pub get-IsValid : {r : ErrQueue} → IsValid r → IsValid (get r).1
get-IsValid {r} v = elim (ℕ_discrete (used r) 0) [
  | yes e ↦ rw (get-empty r v e) (cleared-IsValid r false v)
  | no ne ↦ rw (get-taken r v ne) (record {
    slots = cleared-length r v;
    head_in = v.head_in;
    tail_in = omega arith;
    clean = taken-clean r v ne;
  })
]

window-empty : (q : List Entry) (t n : ℕ) → n ≡ 0 → window q t n ≡ []
unfolding window
window-empty q t n h = rw h

window-taken :
    (r : ErrQueue)
    → IsValid r
    → used r ≢ 0
    → window r.q r.tail (used r)
      ≡ slot r r.tail
        ∷ window (cleared r) ((r.tail + 1) % errq_size) (distance ((r.tail + 1) % errq_size) r.head)
window-taken r v h = rw (window_pos r.q r.tail (used r) (omega arith)) (
    rw
      (window-set_outside r.q r.tail (record (slot r r.tail) { syndrome = none })
        ((r.tail + 1) % errq_size) (distance ((r.tail + 1) % errq_size) r.head) (omega arith)
        v.tail_in (omega (arith, v)))
      (ap (λ n. slot r r.tail ∷ window r.q ((r.tail + 1) % errq_size) n) (omega (arith, v))))

-- A read of the array is a read of the queue.
pub get_refines : {r : ErrQueue} → IsValid r → ((get r).0, view (get r).1) ≡ Spec.get (view r)
unfolding Spec.get
get_refines {r} v = elim (ℕ_discrete (used r) 0) [
  | yes e ↦
      rw
        (
          get-empty r v e,
          window-empty r.q r.tail (used r) e,
          window-empty (cleared r) r.tail (used r) e,
        )
        (go r.overflow)
  | no ne ↦ rw (get-taken r v ne) (rw (window-taken r v ne))
]
  where
    go :
        (b : Bool)
        → ◌≡◌ {A = Reply × Queue}
            ((if b then Spec.reply queue_overflow none else Spec.reply no_error none), Spec.empty)
            (Spec.get (record { items = []; lost = b }))
    go true = refl
    go false = refl

unfoldable pub run : ErrQueue → List Call → List Reply
run r [] = []
run r (raise num s ∷ cs) = run (push r num s) cs
run r (Call.next ∷ cs) = let (a, r') = get r in a ∷ run r' cs

run_refines : (cs : List Call) {r : ErrQueue} → IsValid r → run r cs ≡ Spec.run (view r) cs
unfolding run Spec.run
run_refines [] v = refl
run_refines (raise num s ∷ cs) v = rw (run_refines cs (push-IsValid num s v), push_refines num s v)
run_refines (Call.next ∷ cs) v = rw (run_refines cs (get-IsValid v), ← get_refines v)

-- From the start, no sequence of errors raised and read tells the circular array from a FIFO of at
-- most 31 errors: the same errors in the same order, with their own messages and syndromes, and one
-- overflow report at its end if any was lost.
pub run-init_refines : (cs : List Call) → run init cs ≡ Spec.run Spec.empty cs
unfolding window init
run-init_refines cs = run_refines cs init-IsValid ∙ ap (λ s. Spec.run s cs) start
  where
    start : view init ≡ Spec.empty
    start = refl

-- For a valid queue `scpi_error_count` is the number of queued errors, and one more for a lost
-- one, unless the queue is empty.
pub count-view :
    {r : ErrQueue}
    → IsValid r
    → count r ≡ (
        if length (view r).items == 0
        then 0
        else length (view r).items + (if (view r).lost then 1 else 0))
unfolding count
count-view {r} v = rw (length-window r.q r.tail (used r)) (ground (arith, v))
