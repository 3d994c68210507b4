-- ===== src/Log.antt =====
-- src/ujo_log.c with WRITE_DEBUG_LOG: what `log_print` prints. `none` is undefined behaviour.
pub mod Pieces
use libujo_c.Base.{
  ℕ, Bool, true, false, List, [], ◌∷◌, ◌++◌, Option, none, some, ◌==◌, if◌then◌else◌,
}

-- What the function takes from outside: the line that `ctime` gives, and what `fprintf` prints for %d.
pub record Console : Type 0 where
  pub time : List ℕ
  pub decimal : ℕ → List ℕ

-- An argument behind the format: a string up to its terminator, or an int.
pub data Arg : Type 0 where
  text : List ℕ → Arg
  number : ℕ → Arg

-- `va_arg` of a type that the next argument has not is undefined.
abbrev pub next_text : List Arg → Option (List ℕ)
next_text (text s ∷ args) = some s
next_text _ = none

abbrev pub next_number : List Arg → Option ℕ
next_number (number n ∷ args) = some n
next_number _ = none

abbrev pub rest_of : List Arg → List Arg
rest_of [] = []
rest_of (a ∷ args) = args

-- Output in front of what follows.
abbrev pub emit : List ℕ → Option (List ℕ) → Option (List ℕ)
emit out none = none
emit out (some more) = some (out ++ more)

abbrev pub emit_text : Option (List ℕ) → Option (List ℕ) → Option (List ℕ)
emit_text none more = none
emit_text (some s) more = emit s more

abbrev pub emit_number : Console → Option ℕ → Option (List ℕ) → Option (List ℕ)
emit_number c none more = none
emit_number c (some n) more = emit (c.decimal n) more

-- The loop over the memory of the format, from `p` on; `escaped` is whether `p` stands behind a '%'.
-- There, a character other than 's' and 'd' is printed, and so is the terminator.
unfoldable pub scan : Console → Bool → List ℕ → List Arg → Option (List ℕ)
scan c escaped [] args = none
scan c false (x ∷ xs) args =
    let plain = scan c false xs args in
    let escape = scan c true xs args in
    if x == 0 then some [] else (if x == 37 then escape else emit (x ∷ []) plain)
scan c true (x ∷ xs) args =
    let plain = scan c false xs args in
    let behind = scan c false xs (rest_of args) in
    if x == 115
    then emit_text (next_text args) behind
    else (if x == 100 then emit_number c (next_number args) behind else emit (x ∷ []) plain)

-- " [", "][line: " and "] "
abbrev pub before_file : List ℕ
before_file = 32 ∷ 91 ∷ []

abbrev pub before_line : List ℕ
before_line = 93 ∷ 91 ∷ 108 ∷ 105 ∷ 110 ∷ 101 ∷ 58 ∷ 32 ∷ []

abbrev pub behind_line : List ℕ
behind_line = 93 ∷ 32 ∷ []

-- The place in the source, and a new line.
abbrev pub place : Console → List ℕ → ℕ → List ℕ
place c filename line =
    before_file ++ filename ++ before_line ++ c.decimal line ++ behind_line ++ 10 ∷ []

-- The time and a space, the message, and the place in the source.
unfoldable pub log_print : Console → List ℕ → ℕ → List ℕ → List Arg → Option (List ℕ)
unfolding scan
log_print c filename line fmt args = elim (scan c false fmt args) [
  | none ↦ none
  | some message ↦ some (c.time ++ 32 ∷ [] ++ message ++ place c filename line)
]
