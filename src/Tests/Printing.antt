-- ===== src/Tests/Printing.antt =====
-- Examples: what the log prints.
use libujo_c.Base.{List, [], ◌∷◌, ◌++◌, ◌+◌, ◌≡◌, refl, some}
use libujo_c.Log.{Console, log_print, place}
use libujo_c.Log.Pieces.{
  Piece, char, inserted, int, percent, format_of, args_of, text_of, log_print-format_of,
}

-- A console that prints digits.
abbrev console : Console
console = record { time = 0x32 ∷ 0x30 ∷ 10 ∷ []; decimal = λ n. (n + 48) ∷ [] }

-- "x%s%%%d"
abbrev message : List Piece
message = char 120 ∷ inserted (65 ∷ 66 ∷ []) ∷ percent ∷ int 7 ∷ []

log_print-format_of_example :
    log_print console (97 ∷ []) 3 (format_of message ++ 0 ∷ []) (args_of message ++ [])
    ≡ some (console.time ++ 32 ∷ [] ++ text_of console message ++ place console (97 ∷ []) 3)
log_print-format_of_example = log_print-format_of console (97 ∷ []) 3 message [] [] (refl, refl, tt)
