-- ===== src/Call/ShortFile.antt =====
-- A document of src/ujo_writer.c, read by src/ujo_reader.c from a file that ends too early.
use mathlib.Core.Path.{subst}
use libujo_c.Base.{
  ℕ, ◌^◌, ◌≤◌, ◌<◌, ◌≡◌, refl, sym, ◌∙◌, false, List, Option, some, arith, length, take, [],
  take-take, length-take,
}
use libujo_c.Base.Result.{ok, err, ◌>>◌}
use libujo_c.Types.{file_access, err_file}
use libujo_c.Platform.{Platform, Grants}
use libujo_c.State.{root, closed}
use libujo_c.Writer.{Writer, new_memory_writer}
use libujo_c.Reader.{Reader, new_file_reader, set_on_element}
use libujo_c.Reader.Next.{parse}
use libujo_c.Reader.Input.{Reads}
use libujo_c.Reader.Ends.{parse-Stays}
use libujo_c.Reader.Simulate.{Same}
use libujo_c.Reader.Stream.{Holds}
use libujo_c.Reader.ShortFile.{Ends, Starts, parse-short}
use libujo_c.Call.{Call}
use libujo_c.Call.Run.{AllFit, run}
use libujo_c.Call.Document.{IsSmall}
use libujo_c.Call.Parse.{Callback, Accepts, parse-delivers}
use libujo_c.Call.RoundTrip.{idle, run-Document}
use libujo_c.Call.FromFile.{on_file, in_memory, in_memory-Reads, new_file_reader-idle}
use libujo_c.Call.Truncated.{at_end, length-le-all_bytes}

on_file-Starts :
    {File Client : Type 0} (p : Platform File) (g : Grants p) (f : Callback Client)
    (d : Option Client) (block : List ℕ) (n : ℕ) (at : ℕ → File)
    → Same (Starts block n at) (in_memory p g f d block) (on_file p g f d block (at 0))
on_file-Starts p g f d block n at = record {
  inputs = record {
    memory = refl;
    in_file = refl;
    whole = refl;
    stream = refl;
    inside = omega arith;
  };
  state = refl;
  state_stack = refl;
  magic_code = refl;
  version = refl;
  compression = refl;
  on_element = refl;
  on_element_data = refl;
}

module _ {File : Type 0} (p : Platform File) (g : Grants p) where
  -- A document that was written as for the round trip through memory, with a callback that returns
  -- no error, is read from a file that holds only a proper beginning of it, with fuel for each of its
  -- bytes, where `fread` tells how many bytes are left if it is asked for more: wherever the file
  -- ends, the parse returns the error of a file.
  pub short_file-fails :
      {Client : Type 0} (f : Callback Client) (d : Option Client) (cs : List Call) (fuel n : ℕ)
      (w w' : Writer File) (name : List ℕ) (at : ℕ → File)
      → Accepts f
      → AllFit cs
      → IsSmall p g cs
      → new_memory_writer p ≡ ok w tt
      → run p cs w ≡ ok tt w'
      → w'.state.state ≡ closed
      → w'.bytes ≤ fuel
      → n < w'.bytes
      → p.fopen name false ≡ some (at 0)
      → Holds p (take n w'.buffer) at
      → Ends p n at
      → (r r' : Reader File Client) × (new_file_reader p name ≡ ok r tt)
        × ((set_on_element (some f) d >> parse p fuel) r ≡ err err_file r')
  unfolding set_on_element
  short_file-fails {Client} f d cs fuel n w w' name at accepts fits small new r over enough short
        opens holds ends =
      let doc = run-Document p g cs w w' fits small new r in
      let block : List ℕ = take w'.bytes w'.buffer in
      let start : Reader File Client = in_memory p g f d block in
      let long : length block ≡ w'.bytes =
        length-take w'.bytes w'.buffer
          (omega (arith, doc.stands.valid.sized, doc.stands.valid.within)) in
      let fits_size : length block < 2 ^ 64 = omega (arith, doc.size, small, long) in
      let (r1, e, reads) =
        parse-delivers p g f accepts cs fuel d start (root, []) doc.to fits
          (omega (arith, doc.size, length-le-all_bytes p.order cs))
          (subst (λ xs. Reads (some f) d start xs (root, [])) doc.holds_all
            (in_memory-Reads p g f d block fits_size))
          doc.path (sym doc.stands.here.current ∙ over) in
      let late : length block ≤ r1.parsed =
        at_end p block fits_size (parse p fuel start) r1 doc.to
          (parse-Stays p block fits_size fuel start (omega (arith, long)) (record {
            memory = refl;
            in_block = refl;
            from_low = omega arith;
            inside = omega arith;
          }))
          e reads in
      let (s, failed) =
        parse-short p block n (omega (arith, long)) fits_size at
          (subst (λ ys. Holds p ys at) (sym (take-take n w'.bytes w'.buffer (omega arith))) holds)
          ends fuel start (on_file p g f d block (at 0)) r1 (on_file-Starts p g f d block n at) e
          (omega (arith, long)) in
      (
        record (idle p) { type = file_access; file = some (at 0) },
        s,
        new_file_reader-idle p g name (at 0) opens,
        failed,
      )
