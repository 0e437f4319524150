-- ===== src/ErrorQueue.antt =====
-- src/scpi_error.c and src/scpi_error.h: the SCPI error queue, a circular array with an overflow
-- flag. A function that changes `*errq` returns the new queue. `strdup` is taken to succeed, so a
-- syndrome is its text.
pub mod Raise
pub mod Spec
pub mod Invariant
pub mod Refine
pub mod Release
pub mod Reset
use cgr101_scpi.Prelude.{
  ℕ, zero, suc, ◌+◌, ◌-◌, Bool, true, false, not, Option, none, some, List, [], ◌∷◌, ltb, ◌==◌,
  if◌then◌else◌, get_or, set, replicate, codes,
}
use cgr101_scpi.Prelude.Int.{ℤ, pos, negsuc}
use cgr101_scpi.Prelude.Words.{u32, sub_u32}

-- `enum scpi_err_num`
pub data ErrNum : Type 0 where
  no_error internal_parser_error undefined_header : ErrNum
  data_out_of_range hardware_error queue_overflow : ErrNum

abbrev pub err_code : ErrNum → ℤ
err_code no_error = pos 0
err_code internal_parser_error = pos 100
err_code undefined_header = negsuc 112
err_code data_out_of_range = negsuc 221
err_code hardware_error = negsuc 239
err_code queue_overflow = negsuc 349

-- A `char *` that may be NULL.
abbrev pub Text : Type 0
Text = List ℕ

-- `struct scpi_err`
pub record Entry : Type 0 where
  pub error : ErrNum
  pub syndrome : Option Text

abbrev pub errq_size : ℕ
errq_size = 32

-- `struct scpi_errq`
pub record ErrQueue : Type 0 where
  pub head : ℕ
  pub tail : ℕ
  pub overflow : Bool
  pub q : List Entry

-- A slot as `calloc` leaves it.
abbrev pub blank : Entry
blank = record { error = no_error; syndrome = none }

abbrev pub slot : ErrQueue → ℕ → Entry
slot r i = get_or r.q i blank

-- `scpi_error_init`
unfoldable pub init : ErrQueue
init = record { head = 0; tail = 0; overflow = false; q = replicate errq_size blank }

-- Step to the next index of the array, as `head` and `tail` both do.
abbrev pub next : ℕ → ℕ
next i = if u32 (i + 1) == errq_size then 0 else u32 (i + 1)

-- The slot that `scpi_error` leaves: a NULL syndrome is not stored over the old one.
abbrev pub filled : Entry → ErrNum → Option Text → Entry
filled old num none = record old { error = num }
filled old num (some s) = record { error = num; syndrome = some s }

-- `scpi_error`
unfoldable pub push : ErrQueue → ErrNum → Option Text → ErrQueue
push r num syndrome =
    if next r.head == r.tail
    then record r { overflow = true }
    else record r { q = set r.q r.head (filled (slot r r.head) num syndrome); head = next r.head }

-- `scpi_error_count`
unfoldable pub count : ErrQueue → ℕ
count r =
    if r.head == r.tail
    then 0
    else (if ltb r.tail r.head
        then sub_u32 r.head r.tail
        else u32 (sub_u32 r.head r.tail + errq_size))
      + (if r.overflow then 1 else 0)

-- `scpi_err_msg`: the messages in the order of the table.
abbrev pub scpi_err_msg : List (ErrNum × Text)
scpi_err_msg =
    (no_error, codes "No error")
    ∷ (undefined_header, codes "Undefined header")
    ∷ (data_out_of_range, codes "Data out of range")
    ∷ (queue_overflow, codes "Queue Overflow")
    ∷ (internal_parser_error, codes "Parser Error")
    ∷ (hardware_error, codes "Hardware error")
    ∷ []

abbrev pub ErrNum-eq : ErrNum → ErrNum → Bool
ErrNum-eq no_error no_error = true
ErrNum-eq internal_parser_error internal_parser_error = true
ErrNum-eq undefined_header undefined_header = true
ErrNum-eq data_out_of_range data_out_of_range = true
ErrNum-eq hardware_error hardware_error = true
ErrNum-eq queue_overflow queue_overflow = true
ErrNum-eq _ _ = false

find_msg : List (ErrNum × Text) → ErrNum → Text
find_msg [] num = codes "???"
find_msg ((e, msg) ∷ rest) num = if ErrNum-eq e num then msg else find_msg rest num

-- `scpi_errmsg`
unfoldable pub errmsg : ErrNum → Text
unfolding find_msg
errmsg num = find_msg scpi_err_msg num

-- `scpi_error_pop`
abbrev pub pop : ErrQueue → ErrQueue
pop r = record r { tail = next r.tail }

-- What `scpi_error_get` stores through its three pointers.
pub record Reply : Type 0 where
  pub error : ErrNum
  pub msg : Text
  pub syndrome : Option Text

-- The branches of `scpi_error_get`: the error, and the queue before the slot is cleared.
abbrev pub choose : ErrQueue → ErrNum × ErrQueue
choose r =
    if r.head == r.tail
    then (if r.overflow
        then (queue_overflow, record r { overflow = not r.overflow })
        else (no_error, r))
    else ((slot r r.tail).error, pop r)

-- `scpi_error_get`
unfoldable pub get : ErrQueue → Reply × ErrQueue
get r =
    let (e, r') = choose r in
    (
      record { error = e; msg = errmsg e; syndrome = (slot r r.tail).syndrome },
      record r' { q = set r'.q r.tail (record (slot r r.tail) { syndrome = none }) },
    )

-- `scpi_error_reset`
unfoldable pub reset : ErrQueue → ErrQueue
reset r = record r { head = 0; tail = 0 }

abbrev pub freed : Option Text → List Text → List Text
freed none out = out
freed (some s) out = s ∷ out

-- The loop of `scpi_error_done`, on fuel: the syndromes that it frees, in order, and the queue at
-- its end; `none` means that the fuel ran out.
unfoldable pub release_from : ℕ → ErrQueue → Option (List Text × ErrQueue)
release_from zero r = none
release_from (suc fuel) r =
    let rest = release_from fuel (pop r) in
    if r.head == r.tail
    then some ([], r)
    else elim rest [ none ↦ none | some (out, r') ↦ some (freed (slot r r.tail).syndrome out, r') ]

-- `scpi_error_done`: one round for each slot, and one to stop.
unfoldable pub release : ErrQueue → Option (List Text × ErrQueue)
unfolding release_from
release r = release_from (suc errq_size) r
