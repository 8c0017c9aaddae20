-- ===== src/Predicate/Fuel/Pieces.antt =====
-- How many bytes the pieces of the parser leave that do not depend on the parameters.
use nifi_lens.Base.{
  ℕ, ◌+◌, ◌≤◌, ◌<◌, ◌≡◌, refl, ◌&&◌, Bool, true, false, Option, none, some, [], ◌∷◌, length,
  if-keeps, ◌==◌, arith,
}
use nifi_lens.Predicate.{
  Bytes, Op, Message, Cursor, Parsed, ok, err, and_then, span, skip_ws, is_ws, parse_op, delimited,
  consume_keyword,
}

abbrev pub is_out : Message → Bool
is_out Message.out_of_fuel = true
is_out _ = false

-- The fuel was enough.
abbrev pub Ends {ℓ} : {A : Type ℓ} → Parsed A → Type 0
Ends (ok a) = Unit
Ends (err e) = is_out e.message ≡ false

-- The fuel was enough, and at most so many bytes are left.
abbrev pub Leaves : {A : Type 0} → ℕ → Parsed (A × Cursor) → Type 0
Leaves n (ok a) = length a.1.rest ≤ n
Leaves n (err e) = is_out e.message ≡ false

-- The fuel was enough, and fewer bytes are left.
abbrev pub LeavesLess : {A : Type 0} → ℕ → Parsed (A × Cursor) → Type 0
LeavesLess n (ok a) = length a.1.rest < n
LeavesLess n (err e) = is_out e.message ≡ false

pub length-span : (p : ℕ → Bool) (bs : Bytes) → length (span p bs).1 ≤ length bs
unfolding span
length-span p [] = omega arith
length-span p (b ∷ bs) = ground (arith, length-span p bs)

pub and_then-Leaves :
    {A B : Type 0} (m n : ℕ) (p : Parsed (A × Cursor)) (f : A × Cursor → Parsed (B × Cursor))
    → Leaves m p
    → ((a : A × Cursor) → length a.1.rest ≤ m → Leaves n (f a))
    → Leaves n (and_then p f)
and_then-Leaves m n (ok a) f h k = k a h
and_then-Leaves m n (err e) f h k = h

pub and_then-LeavesLess :
    {A B : Type 0} (m n : ℕ) (p : Parsed (A × Cursor)) (f : A × Cursor → Parsed (B × Cursor))
    → Leaves m p
    → ((a : A × Cursor) → length a.1.rest ≤ m → LeavesLess n (f a))
    → LeavesLess n (and_then p f)
and_then-LeavesLess m n (ok a) f h k = k a h
and_then-LeavesLess m n (err e) f h k = h

pub less_and_then :
    {A B : Type 0} (n : ℕ) (p : Parsed (A × Cursor)) (f : A × Cursor → Parsed (B × Cursor))
    → LeavesLess n p
    → ((a : A × Cursor) → length a.1.rest < n → LeavesLess n (f a))
    → LeavesLess n (and_then p f)
less_and_then n (ok a) f h k = k a h
less_and_then n (err e) f h k = h

pub parse_op-LeavesLess : (cur n : ℕ) (bs : Bytes) → length bs ≤ n → LeavesLess n (parse_op cur bs)
unfolding parse_op
parse_op-LeavesLess cur n [] h = refl
parse_op-LeavesLess cur n (b ∷ []) h =
    if-keeps (LeavesLess {A = Op} n) (b == b'=') (omega arith) refl
parse_op-LeavesLess cur n (b ∷ d ∷ bs) h =
    let fewer : length bs < n = omega arith in
    let one_less : length (d ∷ bs) < n = omega arith in
    if-keeps (LeavesLess {A = Op} n) (b == b'=' && d == b'~') fewer (
      if-keeps (LeavesLess {A = Op} n) (b == b'!' && d == b'~') fewer (
        if-keeps (LeavesLess {A = Op} n) (b == b'!' && d == b'=') fewer
          (if-keeps (LeavesLess {A = Op} n) (b == b'=') one_less refl)))

pub skip_ws_le : (c : Cursor) → length (skip_ws c).rest ≤ length c.rest
unfolding skip_ws
skip_ws_le c = length-span is_ws c.rest

-- At most so many bytes are left behind the delimiter or the keyword.
abbrev pub LeavesSome : {A : Type 0} → ℕ → Option (A × Cursor) → Type 0
LeavesSome n none = Unit
LeavesSome n (some a) = length a.1.rest ≤ n

pub cons_le :
    (m n x : ℕ) (o : Option (Bytes × Cursor))
    → m ≤ n
    → LeavesSome m o
    → LeavesSome n (elim o [ none ↦ none | some (out, c) ↦ some (x ∷ out, c) ])
cons_le m n x none le h = tt
cons_le m n x (some (out, c)) le h = omega arith

pub delimited_le :
    (delimiter cur : ℕ) (bs : Bytes) → LeavesSome (length bs) (delimited delimiter cur bs)
unfolding delimited
delimited_le delimiter cur [] = tt
delimited_le delimiter cur (b ∷ []) =
    if-keeps (LeavesSome {A = Bytes} 1) (b == delimiter) (omega arith) tt
delimited_le delimiter cur (b ∷ d ∷ bs) =
    let escaped = delimited_le delimiter (cur + 2) bs in
    let taken = delimited_le delimiter (cur + 1) (d ∷ bs) in
    let n = length (b ∷ d ∷ bs) in
    let less : length (d ∷ bs) ≤ n = omega arith in
    if-keeps (LeavesSome {A = Bytes} n) (b == 0x5c && d == delimiter)
      (cons_le (length bs) n delimiter (delimited delimiter (cur + 2) bs) (omega arith) escaped)
      (if-keeps (LeavesSome {A = Bytes} n) (b == delimiter) less
        (cons_le (length (d ∷ bs)) n b (delimited delimiter (cur + 1) (d ∷ bs)) less taken))

abbrev pub LeavesCursor : ℕ → Option Cursor → Type 0
LeavesCursor n none = Unit
LeavesCursor n (some c) = length c.rest ≤ n

pub consume_keyword_le :
    (kw : Bytes) (cur n : ℕ) (bs : Bytes)
    → length bs ≤ n
    → LeavesCursor n (consume_keyword kw cur bs)
unfolding consume_keyword
consume_keyword_le [] cur n [] h = h
consume_keyword_le [] cur n (b ∷ bs) h = if-keeps (LeavesCursor n) (is_ws b) h tt
consume_keyword_le (k ∷ kw) cur n [] h = tt
consume_keyword_le (k ∷ kw) cur n (b ∷ bs) h =
    if-keeps (LeavesCursor n) (k == b) (consume_keyword_le kw (cur + 1) n bs (omega arith)) tt
