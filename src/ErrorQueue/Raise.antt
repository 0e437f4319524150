-- ===== src/ErrorQueue/Raise.antt =====
-- src/scpi_error.c: an error raised on the circular array is one raised on the queue that a client
-- sees.
use cgr101_scpi.Prelude.{
  ℕ, ◌+◌, ◌%◌, ◌≤◌, ◌<◌, ◌≡◌, ◌≢◌, refl, ap, List, none, some, true, false, Option, arith, set,
  length-set, get_or-set_ne, get_or-replicate, ◌==◌, ==_iff, sym, ◌∙◌,
}
use native.Mathlib.Decide.{ℕ_discrete}
use cgr101_scpi.ErrorQueue.{
  ErrQueue, Entry, ErrNum, Text, blank, errq_size, slot, filled, init, push, next,
}
use cgr101_scpi.ErrorQueue.Spec
use cgr101_scpi.ErrorQueue.Spec.{Queue}
use cgr101_scpi.ErrorQueue.Invariant.{
  IsValid, used, distance, window, length-window, window-set_end,
}

-- The queue that the array stands for.
abbrev pub view : ErrQueue → Queue
view r = record { items = window r.q r.tail (used r); lost = r.overflow }

pub init-IsValid : IsValid init
unfolding init
init-IsValid = record {
  slots = refl;
  head_in = omega arith;
  tail_in = omega arith;
  clean = λ i h u. rw (get_or-replicate errq_size i blank);
}

pub next_lem : (i : ℕ) → i < errq_size → next i ≡ (i + 1) % errq_size
next_lem i h = ground arith

-- The slots after `scpi_error` stores in a queue with room.
abbrev stored : ErrQueue → ErrNum → Option Text → List Entry
stored r num s = set r.q r.head (filled (slot r r.head) num s)

abbrev pushed : ErrQueue → ErrNum → Option Text → ErrQueue
pushed r num s = record r { q = stored r num s; head = (r.head + 1) % errq_size }

push-full :
    (r : ErrQueue) (num : ErrNum) (s : Option Text)
    → IsValid r
    → used r ≡ 31
    → push r num s ≡ record r { overflow = true }
unfolding push
push-full r num s v h =
    rw (next_lem r.head v.head_in, (==_iff ((r.head + 1) % errq_size) r.tail).1 (omega arith))

push-room :
    (r : ErrQueue) (num : ErrNum) (s : Option Text)
    → IsValid r
    → used r ≢ 31
    → push r num s ≡ pushed r num s
unfolding push
push-room r num s v h = rw (next_lem r.head v.head_in) (rw go)
  where
    go : ((r.head + 1) % errq_size == r.tail) ≡ false
    go = ground arith

pushed-clean :
    (r : ErrQueue) (num : ErrNum) (s : Option Text)
    → IsValid r
    → used r ≢ 31
    → (i : ℕ) → i < errq_size
    → used (pushed r num s) ≤ distance r.tail i
    → (slot (pushed r num s) i).syndrome ≡ none
pushed-clean r num s v h i hi u =
    rw (get_or-set_ne r.q r.head i (filled (slot r r.head) num s) blank (omega (arith, v)))
      (v.clean i hi (omega (arith, v)))

pub push-IsValid :
    {r : ErrQueue} (num : ErrNum) (s : Option Text) → IsValid r → IsValid (push r num s)
push-IsValid {r} num s v = elim (ℕ_discrete (used r) 31) [
  | yes e ↦
      rw (push-full r num s v e)
        (record { slots = v.slots; head_in = v.head_in; tail_in = v.tail_in; clean = v.clean })
  | no ne ↦ rw (push-room r num s v ne) (record {
    slots = omega (arith, v.slots, length-set r.q r.head (filled (slot r r.head) num s));
    head_in = omega arith;
    tail_in = v.tail_in;
    clean = pushed-clean r num s v ne;
  })
]

filled-clean :
    (r : ErrQueue) (num : ErrNum) (s : Option Text)
    → IsValid r
    → filled (slot r r.head) num s ≡ record { error = num; syndrome = s }
filled-clean r num none v =
    ap (λ x. record { error = num; syndrome = x }) (v.clean r.head v.head_in (omega arith))
filled-clean r num (some t) v = refl

-- A push on the array is a push on the queue.
pub push_refines :
    {r : ErrQueue} (num : ErrNum) (s : Option Text)
    → IsValid r
    → view (push r num s) ≡ Spec.push (view r) num s
push_refines {r} num s v = elim (ℕ_discrete (used r) 31) [
  | yes e ↦
      rw (
        push-full r num s v e,
        Spec.push_full (view r) num s (length-window r.q r.tail (used r) ∙ e),
      )
  | no ne ↦
      rw
        (
          push-room r num s v ne,
          Spec.push_room (view r) num s (λ e. ne (sym (length-window r.q r.tail (used r)) ∙ e)),
          ← filled-clean r num s v,
          ← window-set_end r.q r.head (filled (slot r r.head) num s) r.tail (used r) v.slots
              v.tail_in v.head_in refl,
        )
        (ap (λ n. record { items = window (stored r num s) r.tail n; lost = r.overflow })
          (omega (arith, v)))
]
