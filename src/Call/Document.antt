-- ===== src/Call/Document.antt =====
-- A document that src/ujo_writer.c writes into memory, from `ujo_new_memory_writer` on.
use libujo_c.Base.{
  ℕ, ◌%◌, ◌+◌, ◌*◌, ◌^◌, ◌<◌, ◌≡◌, refl, sym, ap, ◌∙◌, true, List, [], ◌∷◌, ◌++◌, arith, length,
  none, zero, suc,
}
use libujo_c.Base.Result.{M, Result, ok, err, fault, out_of_fuel, and_then, ◌>>◌}
use libujo_c.Types.{memory_access, default_bufsize, magic, data_version, compress_none}
use libujo_c.Platform.{Platform, Endian, little, big, Grants}
use libujo_c.Stack
use libujo_c.State.{root, new_state, state_size}
use libujo_c.State.Shape.{is_outer}
use libujo_c.Words.{memory_bytes, low_bytes, uint16_swap}
use libujo_c.Words.Bytes.{memory_bytes-uint16_swap}
use libujo_c.State.Refine.{At}
use libujo_c.Writer.{
  Writer, zeros, put, put_uint8, put_uint16, header, finished, start, new_writer, new_memory_writer,
  writer_size,
}
use libujo_c.Writer.Put.{contents, IsValid}
use libujo_c.Writer.Entry.{Stands, At-same, write_all, write_all-Wrote, joined}
use libujo_c.Stack.Laws.{new_stack-Holds}
use libujo_c.Call.{Call}
use libujo_c.Call.Run.{all_bytes}

pub one_byte : (e : Endian) (x : ℕ) → memory_bytes e 1 x ≡ x % 256 ∷ []
unfolding memory_bytes low_bytes
one_byte little x = refl
one_byte big x = refl

-- "_UJO", the version 1 as two bytes, and no compression.
abbrev pub header_bytes : List ℕ
header_bytes = 0x5F ∷ 0x55 ∷ 0x4A ∷ 0x4F ∷ 0x01 ∷ 0x00 ∷ 0x00 ∷ []

pub length-zeros : (n : ℕ) → length (zeros n) ≡ n
unfolding zeros
length-zeros zero = refl
length-zeros (suc n) = ap suc (length-zeros n)

module _ {File : Type 0} (p : Platform File) (g : Grants p) where
  -- The writer before the header is put.
  abbrev blank : Writer File
  blank = record {
    type = memory_access;
    state_stack = Stack.new_stack p true;
    state = record { state = root; columns = 0; column = 0 };
    buffersize = default_bufsize;
    buffer = zeros default_bufsize;
    bytes = 0;
    file = none;
  }

  blank-IsValid : IsValid blank
  blank-IsValid = record {
    memory = refl;
    sized = length-zeros default_bufsize;
    within = omega arith;
    lean = omega arith;
  }

  header_pieces : List (List ℕ)
  header_pieces =
      magic
      ∷ memory_bytes p.order 2 (uint16_swap p.order data_version)
      ∷ memory_bytes p.order 1 compress_none
      ∷ []

  ends_ok : (r : Result (Writer File) (Unit {0})) → and_then r (λ _ v. ok tt v) ≡ r
  ends_ok (ok a s) = refl
  ends_ok (err code s) = refl
  ends_ok fault = refl
  ends_ok out_of_fuel = refl

  then_ends :
      (m k : M (Writer File) (Unit {0})) (r : Result (Writer File) (Unit {0}))
      → ((s : Writer File) → k s ≡ m s)
      → and_then r (λ _. k) ≡ and_then r (λ _. m)
  then_ends m k (ok a s) e = e s
  then_ends m k (err code s) e = refl
  then_ends m k fault e = refl
  then_ends m k out_of_fuel e = refl

  header_as_pieces : (w : Writer File) → write_all p header_pieces (λ v. ok tt v) w ≡ header p w
  unfolding header write_all put_uint8 put_uint16 header_pieces
  header_as_pieces w =
      then_ends (put_uint16 p data_version >> put_uint8 p compress_none) _ (put p magic w) (λ s.
        then_ends (put_uint8 p compress_none) _ (put_uint16 p data_version s)
          (λ t. ends_ok (put_uint8 p compress_none t)))

  joined_header : joined header_pieces ≡ header_bytes
  unfolding header_pieces low_bytes
  joined_header =
      ap (λ xs. magic ++ (xs ++ (memory_bytes p.order 1 compress_none ++ [])))
        (memory_bytes-uint16_swap p.order data_version)
      ∙ ap (λ xs. magic ++ (low_bytes 2 data_version ++ (xs ++ [])))
          (one_byte p.order compress_none)

  blank-At : At true (blank.state, blank.state_stack) (root, [])
  blank-At = record { above = []; holds = new_stack-Holds p true g; current = refl; outside = refl }

  new_memory_writer_lem :
      (w : Writer File) → header p blank ≡ ok tt w → new_memory_writer p ≡ ok w tt
  unfolding new_memory_writer new_writer start new_state finished
  new_memory_writer_lem w e =
      rw (g writer_size, g state_size, g default_bufsize) (ap (finished p) e)

  -- With an allocator that serves every request, `ujo_new_memory_writer` gives a writer at the root
  -- of a document that holds the seven bytes of the header, whatever the byte order is.
  pub new_memory_writer-Done :
      (w : Writer File) × (new_memory_writer p ≡ ok w tt)
      × Stands w (root, [])
      × (contents w ≡ header_bytes)
      × (w.bytes ≡ 7)
  new_memory_writer-Done =
      let long : length (joined header_pieces) ≡ 7 = ap length joined_header in
      let (w, e, d) =
        write_all-Wrote p header_pieces (λ v. ok tt v) blank g blank-IsValid
          (omega (arith, long)) in
      (
        w,
        new_memory_writer_lem w (sym (header_as_pieces blank) ∙ e),
        record {
          valid = d.valid;
          here = At-same d.same_state d.same_stack blank-At;
          nested = unfold is_outer in refl;
        },
        d.written ∙ joined_header,
        omega (arith, d.count, long),
      )

  -- The room that a document needs.
  abbrev pub IsSmall : List Call → Type 0
  IsSmall cs = 2 * (7 + length (all_bytes p.order cs)) + 4096 < 2 ^ 64
