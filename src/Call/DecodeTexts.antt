-- ===== src/Call/DecodeTexts.antt =====
-- The functions of src/ujo_reader.c read back the strings and binary values of src/ujo_writer.c.
use mathlib.Core.Path.{subst, ap₂}
use libujo_c.Base.{
  ℕ, zero, suc, ◌*◌, ◌%◌, ◌^◌, ◌<◌, ◌≡◌, refl, sym, ap, ◌∙◌, List, [], ◌∷◌, ◌++◌, Option, arith,
  length, take, length-append, length-take, append_assoc, append-nil,
}
use libujo_c.Base.Result.{report_error-true, M, ok, pure, ◌>>=◌}
use libujo_c.Types.{err_allocation}
use libujo_c.Platform.{Platform, Endian, Grants}
use libujo_c.State.Shape.{Shape}
use libujo_c.Words.{memory_bytes, from_memory}
use libujo_c.Words.Bytes.{length-memory_bytes, from_memory-memory_bytes}
use libujo_c.Writer.Texts.{array_bytes}
use libujo_c.Element.{Value, string_val, binary_val}
use libujo_c.Reader.{Reader, get_data}
use libujo_c.Reader.Values.{parse_binary, parse_string, get_uint8, get_array, get_units, from_array}
use libujo_c.Reader.Input.{front_of, back_of, Handler, Reads, Parses, then-Parses, gives}
use libujo_c.Call.{AllBelow, IsArray}
use libujo_c.Call.Decode.{Decodes, settle, settles, get_uint8-Parses, piece-Parses}

length-array_bytes :
    (e : Endian) (k : ℕ) (xs : List ℕ) → length (array_bytes e k xs) ≡ length xs * k
unfolding array_bytes
length-array_bytes e k [] = omega arith
length-array_bytes e k (x ∷ xs) =
    length-append (memory_bytes e k x) (array_bytes e k xs)
    ∙ grind (arith, length-memory_bytes e k x, length-array_bytes e k xs)

AllBelow-take : (b n : ℕ) (xs : List ℕ) → AllBelow b xs → AllBelow b (take n xs)
AllBelow-take b zero xs h = tt
AllBelow-take b (suc n) [] h = tt
AllBelow-take b (suc n) (x ∷ xs) h = (h.0, AllBelow-take b n xs h.1)

-- An array that was written unit by unit is read back.
from_array-array_bytes :
    (e : Endian) (k : ℕ) (xs : List ℕ) (n : ℕ)
    → length xs ≡ n
    → AllBelow (256 ^ k) xs
    → from_array e k n (array_bytes e k xs) ≡ xs
unfolding array_bytes from_array
from_array-array_bytes e k [] zero l h = refl
from_array-array_bytes e k (x ∷ xs) zero l h = absurd (omega arith)
from_array-array_bytes e k [] (suc n) l h = absurd (omega arith)
from_array-array_bytes e k (x ∷ xs) (suc n) l h =
    let long : length (memory_bytes e k x) ≡ k = length-memory_bytes e k x in
    ap₂ (◌∷◌)
      (ap (from_memory e) (front_of (memory_bytes e k x) (array_bytes e k xs) refl long)
        ∙ from_memory-memory_bytes e k x h.0)
      (ap (from_array e k n) (back_of (memory_bytes e k x) (array_bytes e k xs) refl long)
        ∙ from_array-array_bytes e k xs n (omega arith) h.1)

module _ {File Client : Type 0} (p : Platform File) (g : Grants p) (f : Handler Client)
    (d : Option Client) where
  get_array-Parses :
      (k n : ℕ) (xs rest : List ℕ) (r : Reader File Client) (at : Shape)
      → length xs ≡ n
      → n * k < 2 ^ 64
      → AllBelow (256 ^ k) xs
      → Reads f d r (array_bytes p.order k xs ++ rest) at
      → Parses f d (get_array p k n) r xs rest at
  unfolding get_array
  get_array-Parses k n xs rest r at l small below h =
      let get : List ℕ → M (Reader File Client) (List ℕ) =
        λ bytes. pure (from_array p.order k n bytes) in
      let size : length (array_bytes p.order k xs) ≡ n * k % 2 ^ 64 =
        length-array_bytes p.order k xs ∙ ap (λ i. i * k) l ∙ omega arith in
      let (r1, e, h1) =
        piece-Parses p g f d get r (n * k % 2 ^ 64) (array_bytes p.order k xs) rest rest at at
          (from_array p.order k n (array_bytes p.order k xs)) h size
          (λ r1 h1.
            gives p g f d (from_array p.order k n (array_bytes p.order k xs)) r1 rest at h1) in
      (
        r1,
        report_error-true (p.grants (n * k)) err_allocation (get_data p (n * k % 2 ^ 64) >>= get) r
              (g (n * k))
            ∙ e
            ∙ ap (λ ys. ok ys r1) (from_array-array_bytes p.order k xs n l below),
        h1,
      )

  -- The number of units stands in the byte order of the platform.
  units-Parses :
      {A : Type 0} (k : ℕ → M (Reader File Client) A) (n : ℕ) (r : Reader File Client)
      (ys rest rest' : List ℕ) (at at' : Shape) (a : A)
      → n < 2 ^ 32
      → Reads f d r ((memory_bytes p.order 4 n ++ ys) ++ rest) at
      → ((r' : Reader File Client) → Reads f d r' (ys ++ rest) at → Parses f d (k n) r' a rest' at')
      → Parses f d (get_data p 4 >>= λ bytes. k (from_memory p.order bytes)) r a rest' at'
  units-Parses k n r ys rest rest' at at' a b h go =
      piece-Parses p g f d (λ bytes. k (from_memory p.order bytes)) r 4 (memory_bytes p.order 4 n)
        (ys ++ rest) rest' at at' a
        (subst (λ zs. Reads f d r zs at) (append_assoc (memory_bytes p.order 4 n) ys rest) h)
        (length-memory_bytes p.order 4 n)
        (λ r1 h1.
          subst (λ m. Parses f d (k m) r1 a rest' at')
            (sym (from_memory-memory_bytes p.order 4 n b)) (go r1 h1))

  -- What stands in a document for a string or a binary value of n units of k bytes.
  abbrev pub text_tail : ℕ → ℕ → ℕ → ℕ → List ℕ → List ℕ
  text_tail sub k n units s =
      memory_bytes p.order 1 sub
      ++ (memory_bytes p.order 4 units ++ (array_bytes p.order k (take n s) ++ []))

  reads_text :
      (m : ℕ → ℕ → M (Reader File Client) (List ℕ)) (wrap : ℕ → List ℕ → ℕ → Value)
      (sub k n units : ℕ) (s : List ℕ)
      → m sub n ≡ get_array p k n
      → units ≡ n
      → n * k < 2 ^ 64
      → sub < 2 ^ 8
      → IsArray k s n
      → Decodes p g f d
          (get_uint8 p >>= λ t. get_data p 4 >>= λ bytes. m t (from_memory p.order bytes) >>= λ xs.
            settle p g f d (wrap t xs (from_memory p.order bytes)))
          (wrap sub (take n s) n)
          (text_tail sub k n units s)
  reads_text m wrap sub k n units s same e small b (within, few, below) r rest at next h q =
      get_uint8-Parses p g f d _ sub r _ rest rest at next _ b h λ r1 h1.
        units-Parses (λ i. m sub i >>= λ xs. settle p g f d (wrap sub xs i)) n r1
          (array_bytes p.order k (take n s) ++ []) rest rest at next _ few
          (subst
            (λ u.
              Reads f d r1
                ((memory_bytes p.order 4 u ++ (array_bytes p.order k (take n s) ++ [])) ++ rest) at)
            e h1)
          λ r2 h2.
            then-Parses p g f d (m sub n) (λ xs. settle p g f d (wrap sub xs n)) r2 (take n s) _
              rest rest at next
              (subst (λ act. Parses f d act r2 (take n s) rest at) (sym same)
                (get_array-Parses k n (take n s) rest r2 at (length-take n s within) small
                  (AllBelow-take (256 ^ k) n s below)
                  (subst (λ ys. Reads f d r2 (ys ++ rest) at)
                    (append-nil (array_bytes p.order k (take n s))) h2)))
              λ r3 h3. settles p g f d _ r3 rest at next h3 q

  pub parse_string-Decodes :
      (sub k n units : ℕ) (s : List ℕ)
      → get_units {Client = Client} p sub n ≡ get_array p k n
      → units ≡ n
      → n * k < 2 ^ 64
      → sub < 2 ^ 8
      → IsArray k s n
      → Decodes p g f d (parse_string p) (string_val sub (take n s) n) (text_tail sub k n units s)
  unfolding parse_string
  parse_string-Decodes sub k n units s same e small b fits =
      reads_text (get_units p) string_val sub k n units s same e small b fits

  pub parse_binary-Decodes :
      (t n units : ℕ) (s : List ℕ)
      → units ≡ n
      → t < 2 ^ 8
      → IsArray 1 s n
      → Decodes p g f d (parse_binary p) (binary_val t (take n s) n) (text_tail t 1 n units s)
  unfolding parse_binary
  parse_binary-Decodes t n units s e b fits =
      reads_text (λ u i. get_array p 1 i) binary_val t 1 n units s refl e (omega (arith, fits.1)) b
        fits
