-- ===== src/ErrorQueue/Reset.antt =====
-- src/scpi_error.c: `scpi_error_reset`, which *CLS calls, moves the two indices and nothing else.
use cgr101_scpi.Prelude.{
  ◌≡◌, ◌∙◌, ap, some, none, true, arith, get_or, set, length, get_or-set_self,
}
use cgr101_scpi.ErrorQueue.{
  ErrQueue, ErrNum, Text, errq_size, slot, push, get, count, reset, queue_overflow, blank,
}

-- After a reset the queue counts as empty, but where an error had been lost the next read reports
-- the overflow.
reset_keeps_overflow :
    (r : ErrQueue)
    → r.overflow ≡ true
    → (count (reset r) ≡ 0) × ((get (reset r)).0.error ≡ queue_overflow)
unfolding count reset get
reset_keeps_overflow r h = ground arith

-- A syndrome that stands in the first slot outlives a reset: an error raised next without a
-- syndrome is read back with that one.
reset_stale_syndrome :
    (r : ErrQueue) (num : ErrNum) (s : Text)
    → length r.q ≡ errq_size
    → (slot r 0).syndrome ≡ some s
    → let answer = (get (push (reset r) num none)).0 in
      (answer.error ≡ num) × (answer.syndrome ≡ some s)
unfolding reset get push
reset_stale_syndrome r num s h e = (ap (λ x. x.error) stored, ap (λ x. x.syndrome) stored ∙ e)
  where
    stored :
        get_or (set r.q 0 (record (slot r 0) { error = num })) 0 blank
        ≡ record (slot r 0) { error = num }
    stored = get_or-set_self r.q 0 (record (slot r 0) { error = num }) blank (omega arith)
