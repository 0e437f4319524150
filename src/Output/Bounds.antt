-- ===== src/Output/Bounds.antt =====
-- src/scpi_output.c: the bounds of the buffer.
use cgr101_scpi.Prelude.{
  ℕ, ◌+◌, ◌-◌, ◌≤◌, ◌<◌, ◌≡◌, false, some, none, [], ◌∷◌, ◌++◌, arith, length, length-append,
  length-take, take, Option,
}
use cgr101_scpi.Output.{
  Output, Text, output_size, room, append_char, printed, separate, punctuate, emit, printf, put,
  flush,
}

-- One byte of the array stays free.
abbrev pub IsValid : Output → Type 0
IsValid o = length o.buf < output_size

-- A print position: `current` is at most what is left.
abbrev Fits : ℕ × Output → Type 0
Fits (current, o) = length o.buf + current < output_size

append_char-Fits : (o : Output) (c : ℕ) → IsValid o → Fits (append_char o c)
unfolding append_char
append_char-Fits o c v = ground (arith, length-append o.buf (c ∷ []))

length-printed :
    (current : ℕ) (text : Text)
    → length text ≤ current
    → length (printed current text) ≡ length text
length-printed current text h =
    ground (arith, length-append (take (current - 1) text) (0 ∷ []), length-take (current - 1) text)

separate-Fits : (o : Output) → IsValid o → Fits (separate o)
separate-Fits o v = ground (arith, append_char-Fits o b';' v)

punctuate-Fits : (format : Text) (p : ℕ × Output) → Fits p → Fits (punctuate format p)
punctuate-Fits format (current, o) h = ground (arith, append_char-Fits o b',' (omega arith))

emit-IsValid : (text : Text) (p : ℕ × Output) → Fits p → IsValid (emit text p).1
emit-IsValid text (current, o) h =
    ground (arith, length-append o.buf (printed current text), length-printed current text)

-- Whatever is printed to a buffer that keeps within its array, and whatever room is left, it keeps
-- within its array.
pub printf-IsValid :
    (o : Output) (format text : Text) → IsValid o → IsValid (printf o format text).1
unfolding printf
printf-IsValid o format text v = emit-IsValid text _ (punctuate-Fits format _ (separate-Fits o v))

flush-IsValid :
    (o o' : Output) (out : Option Text) → IsValid o → flush o ≡ some (out, o') → IsValid o'
unfolding flush
flush-IsValid o o' out v h = ground arith

-- A response of 32767 bytes with no separator due leaves no room for its newline: the assertion of
-- `scpi_output_flush` fails.
pub flush_full : (o : Output) → length o.buf ≡ 32767 → o.need_sep ≡ false → flush o ≡ none
unfolding flush printf
flush_full o h s = ground arith

-- The first text of a command, with no separator due, that takes exactly the room left is reported
-- as printed, yet a NUL stands for its last byte.
put_truncated :
    (o : Output) (text : Text)
    → IsValid o
    → o.need_sep ≡ false
    → o.num_elem ≡ 0
    → length text ≡ room o
    → 0 < length text
    → ((put o text).0 ≡ false)
      × ((put o text).1.overflow ≡ o.overflow)
      × ((put o text).1.buf ≡ o.buf ++ (take (length text - 1) text ++ (0 ∷ [])))
unfolding put
put_truncated o text v s n r p = ground arith
