-- ===== src/ErrorQueue/Spec.antt =====
-- What a client may know of the error queue: a FIFO of at most 31 errors that remembers whether
-- one was lost.
use cgr101_scpi.Prelude.{
  ℕ, Bool, true, false, Option, none, List, [], ◌∷◌, ◌++◌, ◌==◌, if◌then◌else◌, length, ◌≡◌, ◌≢◌,
  arith,
}
use cgr101_scpi.ErrorQueue.{ErrNum, Entry, Text, Reply, no_error, queue_overflow, errmsg}

pub record Queue : Type 0 where
  pub items : List Entry
  pub lost : Bool

abbrev pub capacity : ℕ
capacity = 31

abbrev pub empty : Queue
empty = record { items = []; lost = false }

-- The newest error is the one that is dropped.
unfoldable pub push : Queue → ErrNum → Option Text → Queue
push s num syndrome =
    if length s.items == capacity
    then record s { lost = true }
    else record s { items = s.items ++ (record { error = num; syndrome = syndrome } ∷ []) }

pub push_full :
    (s : Queue) (num : ErrNum) (t : Option Text)
    → length s.items ≡ capacity
    → push s num t ≡ record s { lost = true }
unfolding push
push_full s num t h = ground arith

pub push_room :
    (s : Queue) (num : ErrNum) (t : Option Text)
    → length s.items ≢ capacity
    → push s num t ≡ record s { items = s.items ++ (record { error = num; syndrome = t } ∷ []) }
unfolding push
push_room s num t h = ground arith

abbrev pub reply : ErrNum → Option Text → Reply
reply num syndrome = record { error = num; msg = errmsg num; syndrome = syndrome }

abbrev get_items : List Entry → Bool → Reply × Queue
get_items [] true = (reply queue_overflow none, empty)
get_items [] false = (reply no_error none, empty)
get_items (e ∷ rest) lost = (reply e.error e.syndrome, record { items = rest; lost = lost })

unfoldable pub get : Queue → Reply × Queue
get s = get_items s.items s.lost

-- A client's calls in order, with what each `get` returns.
pub data Call : Type 0 where
  raise : ErrNum → Option Text → Call
  next : Call

unfoldable pub run : Queue → List Call → List Reply
run s [] = []
run s (raise num syndrome ∷ cs) = run (push s num syndrome) cs
run s (next ∷ cs) = let (r, s') = get s in r ∷ run s' cs
