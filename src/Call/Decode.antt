-- ===== src/Call/Decode.antt =====
-- The functions of src/ujo_reader.c read back the values that src/ujo_writer.c wrote.
use mathlib.Core.Path.{subst}
use libujo_c.Base.{
  ℕ, ◌^◌, ◌<◌, ◌≡◌, ap, ◌∙◌, List, [], ◌++◌, Option, some, length, append_assoc, append-nil,
}
use libujo_c.Base.Result.{M, pure, ◌>>=◌, ◌>>◌}
use libujo_c.Platform.{Platform, Endian, Grants}
use libujo_c.State.{atomic_found, state_switch}
use libujo_c.State.Shape.{Shape, after}
use libujo_c.Words.{memory_bytes, from_memory, uint16_swap, uint32_swap, uint64_swap}
use libujo_c.Words.Bytes.{
  length-memory_bytes, from_memory-memory_bytes, memory_bytes-uint16_swap, memory_bytes-uint32_swap,
  memory_bytes-uint64_swap, uint16_swap-from_memory, uint32_swap-from_memory,
  uint64_swap-from_memory,
}
use libujo_c.Element.{Value}
use libujo_c.Reader.{Reader, goto, get_data}
use libujo_c.Reader.Values.{get_uint8, get_uint16}
use libujo_c.Reader.Input.{Handler, Reads, Parses, then-Parses, gives, takes, switches}

-- What was swapped to be written comes back when it is swapped to be read.
pub back_uint16 :
    (e : Endian) (v : ℕ)
    → v < 2 ^ 16
    → uint16_swap e (from_memory e (memory_bytes e 2 (uint16_swap e v))) ≡ v
back_uint16 e v h =
    ap (λ xs. uint16_swap e (from_memory e xs)) (memory_bytes-uint16_swap e v)
    ∙ uint16_swap-from_memory e v h

pub back_uint32 :
    (e : Endian) (v : ℕ)
    → v < 2 ^ 32
    → uint32_swap e (from_memory e (memory_bytes e 4 (uint32_swap e v))) ≡ v
back_uint32 e v h =
    ap (λ xs. uint32_swap e (from_memory e xs)) (memory_bytes-uint32_swap e v)
    ∙ uint32_swap-from_memory e v h

pub back_uint64 :
    (e : Endian) (v : ℕ)
    → v < 2 ^ 64
    → uint64_swap e (from_memory e (memory_bytes e 8 (uint64_swap e v))) ≡ v
back_uint64 e v h =
    ap (λ xs. uint64_swap e (from_memory e xs)) (memory_bytes-uint64_swap e v)
    ∙ uint64_swap-from_memory e v h

module _ {File Client : Type 0} (p : Platform File) (g : Grants p) (f : Handler Client)
    (d : Option Client) where
  -- A value is delivered, and the next place is the one after it.
  abbrev pub settle : Value → M (Reader File Client) Value
  settle v = do goto (state_switch p atomic_found); pure v

  pub settles :
      (v : Value) (r : Reader File Client) (rest : List ℕ) (at next : Shape)
      → Reads f d r rest at
      → after atomic_found at ≡ some next
      → Parses f d (settle v) r v rest next
  settles v r rest at next h q =
      then-Parses p g f d (goto (state_switch p atomic_found)) (λ _. pure v) r tt v rest rest next
        next (switches p g f d atomic_found r rest at next h q)
        (λ r1 h1. gives p g f d v r1 rest next h1)

  -- A piece of n bytes stands before the reader, and `k` goes on with it.
  pub piece-Parses :
      {A : Type 0} (k : List ℕ → M (Reader File Client) A) (r : Reader File Client) (n : ℕ)
      (xs rest rest' : List ℕ) (at at' : Shape) (a : A)
      → Reads f d r (xs ++ rest) at
      → length xs ≡ n
      → ((r' : Reader File Client) → Reads f d r' rest at → Parses f d (k xs) r' a rest' at')
      → Parses f d (get_data p n >>= k) r a rest' at'
  piece-Parses k r n xs rest rest' at at' a h e go =
      then-Parses p g f d (get_data p n) k r xs a rest rest' at at'
        (takes p g f d r xs rest n at h e) go

  -- The common course of the values of a fixed size.
  pub field-Parses :
      (n : ℕ) (decode : List ℕ → Value) (v : Value) (xs rest : List ℕ) (r : Reader File Client)
      (at next : Shape)
      → length xs ≡ n
      → decode xs ≡ v
      → Reads f d r ((xs ++ []) ++ rest) at
      → after atomic_found at ≡ some next
      → Parses f d (get_data p n >>= λ bytes. settle (decode bytes)) r v rest next
  field-Parses n decode v xs rest r at next long same h q =
      subst (λ u. Parses f d (get_data p n >>= λ bytes. settle (decode bytes)) r u rest next) same
        (piece-Parses (λ bytes. settle (decode bytes)) r n xs rest rest at next (decode xs)
          (subst (λ ys. Reads f d r (ys ++ rest) at) (append-nil xs) h) long
          (λ r1 h1. settles (decode xs) r1 rest at next h1 q))

  -- The value whose bytes stand before the reader is read, and the next place is the one after it.
  abbrev pub Decodes : M (Reader File Client) Value → Value → List ℕ → Type 0
  Decodes m v xs =
      (r : Reader File Client) (rest : List ℕ) (at next : Shape)
      → Reads f d r (xs ++ rest) at
      → after atomic_found at ≡ some next
      → Parses f d m r v rest next

  -- A number of n bytes within a longer value.
  pub number-Parses :
      {A : Type 0} (k : ℕ → M (Reader File Client) A) (n : ℕ) (decode : List ℕ → ℕ) (v : ℕ)
      (xs ys rest rest' : List ℕ) (r : Reader File Client) (at at' : Shape) (a : A)
      → length xs ≡ n
      → decode xs ≡ v
      → Reads f d r ((xs ++ ys) ++ rest) at
      → ((r' : Reader File Client) → Reads f d r' (ys ++ rest) at → Parses f d (k v) r' a rest' at')
      → Parses f d ((get_data p n >>= λ bytes. pure (decode bytes)) >>= k) r a rest' at'
  number-Parses k n decode v xs ys rest rest' r at at' a long same h go =
      then-Parses p g f d (get_data p n >>= λ bytes. pure (decode bytes)) k r v a (ys ++ rest) rest'
        at at'
        (subst (λ u. Parses f d (get_data p n >>= λ bytes. pure (decode bytes)) r u (ys ++ rest) at)
          same
          (piece-Parses (λ bytes. pure (decode bytes)) r n xs (ys ++ rest) (ys ++ rest) at at
            (decode xs) (subst (λ zs. Reads f d r zs at) (append_assoc xs ys rest) h) long
            (λ r1 h1. gives p g f d (decode xs) r1 (ys ++ rest) at h1)))
        go

  pub get_uint8-Parses :
      {A : Type 0} (k : ℕ → M (Reader File Client) A) (v : ℕ) (r : Reader File Client)
      (ys rest rest' : List ℕ) (at at' : Shape) (a : A)
      → v < 2 ^ 8
      → Reads f d r ((memory_bytes p.order 1 v ++ ys) ++ rest) at
      → ((r' : Reader File Client) → Reads f d r' (ys ++ rest) at → Parses f d (k v) r' a rest' at')
      → Parses f d (get_uint8 p >>= k) r a rest' at'
  unfolding get_uint8
  get_uint8-Parses k v r ys rest rest' at at' a b h go =
      number-Parses k 1 (from_memory p.order) v (memory_bytes p.order 1 v) ys rest rest' r at at' a
        (length-memory_bytes p.order 1 v) (from_memory-memory_bytes p.order 1 v b) h go

  pub get_uint16-Parses :
      {A : Type 0} (k : ℕ → M (Reader File Client) A) (v : ℕ) (r : Reader File Client)
      (ys rest rest' : List ℕ) (at at' : Shape) (a : A)
      → v < 2 ^ 16
      → Reads f d r ((memory_bytes p.order 2 (uint16_swap p.order v) ++ ys) ++ rest) at
      → ((r' : Reader File Client) → Reads f d r' (ys ++ rest) at → Parses f d (k v) r' a rest' at')
      → Parses f d (get_uint16 p >>= k) r a rest' at'
  unfolding get_uint16
  get_uint16-Parses k v r ys rest rest' at at' a b h go =
      number-Parses k 2 (λ bytes. uint16_swap p.order (from_memory p.order bytes)) v
        (memory_bytes p.order 2 (uint16_swap p.order v)) ys rest rest' r at at' a
        (length-memory_bytes p.order 2 (uint16_swap p.order v)) (back_uint16 p.order v b) h go
