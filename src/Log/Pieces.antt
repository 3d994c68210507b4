-- ===== src/Log/Pieces.antt =====
-- Formats for `log_print` of src/ujo_log.c that are made of pieces.
use libujo_c.Base.{ℕ, ◌≡◌, refl, ap, false, List, [], ◌∷◌, ◌++◌, some, ◌==◌}
use libujo_c.Log.{Console, Arg, text, number, scan, emit, log_print, place}

-- A character, a string and an int that are inserted, and a '%'.
pub data Piece : Type 0 where
  char : ℕ → Piece
  inserted : List ℕ → Piece
  int : ℕ → Piece
  percent : Piece

-- The characters are neither '%' nor the terminator.
abbrev pub AllPlain : List Piece → Type 0
AllPlain [] = Unit {0}
AllPlain (char x ∷ ps) = ((x == 0) ≡ false) × ((x == 37) ≡ false) × AllPlain ps
AllPlain (q ∷ ps) = AllPlain ps

abbrev pub format_of : List Piece → List ℕ
format_of [] = []
format_of (char x ∷ ps) = x ∷ format_of ps
format_of (inserted s ∷ ps) = 37 ∷ 115 ∷ format_of ps
format_of (int n ∷ ps) = 37 ∷ 100 ∷ format_of ps
format_of (percent ∷ ps) = 37 ∷ 37 ∷ format_of ps

abbrev pub args_of : List Piece → List Arg
args_of [] = []
args_of (inserted s ∷ ps) = text s ∷ args_of ps
args_of (int n ∷ ps) = number n ∷ args_of ps
args_of (q ∷ ps) = args_of ps

abbrev pub text_of : Console → List Piece → List ℕ
text_of c [] = []
text_of c (char x ∷ ps) = x ∷ text_of c ps
text_of c (inserted s ∷ ps) = s ++ text_of c ps
text_of c (int n ∷ ps) = c.decimal n ++ text_of c ps
text_of c (percent ∷ ps) = 37 ∷ text_of c ps

scan-format_of :
    (c : Console) (ps : List Piece) (rest : List ℕ) (more : List Arg)
    → AllPlain ps
    → scan c false (format_of ps ++ 0 ∷ rest) (args_of ps ++ more) ≡ some (text_of c ps)
unfolding scan
scan-format_of c [] rest more h = refl
scan-format_of c (char x ∷ ps) rest more (a, b, h) = rw (a, b, scan-format_of c ps rest more h) refl
scan-format_of c (inserted s ∷ ps) rest more h = ap (emit s) (scan-format_of c ps rest more h)
scan-format_of c (int n ∷ ps) rest more h =
    ap (emit (c.decimal n)) (scan-format_of c ps rest more h)
scan-format_of c (percent ∷ ps) rest more h = ap (emit (37 ∷ [])) (scan-format_of c ps rest more h)

-- A format made of characters other than '%', of %s, %d and %%, is printed up to its terminator
-- with the arguments in their places, if they are of the kinds that it asks for; there may be more of them. The
-- time stands in front, and the place in the source behind.
pub log_print-format_of :
    (c : Console) (filename : List ℕ) (line : ℕ) (ps : List Piece) (rest : List ℕ) (more : List Arg)
    → AllPlain ps
    → log_print c filename line (format_of ps ++ 0 ∷ rest) (args_of ps ++ more)
      ≡ some (c.time ++ 32 ∷ [] ++ text_of c ps ++ place c filename line)
unfolding log_print
log_print-format_of c filename line ps rest more h =
    rw (log_print, scan-format_of c ps rest more h) refl
