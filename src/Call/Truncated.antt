-- ===== src/Call/Truncated.antt =====
-- A document of src/ujo_writer.c that is cut short, read by src/ujo_reader.c.
use libujo_c.Base.{
  take-take, ℕ, ◌^◌, ◌≤◌, ◌<◌, ◌≡◌, refl, sym, ap, ◌∙◌, List, [], ◌∷◌, length-append, Option, some,
  arith, length, take, drop, length-drop, length-take,
}
use libujo_c.Base.Result.{Result, ok, fault, returns, raises, faults}
use libujo_c.Platform.{Platform, Endian, Grants}
use libujo_c.State.{closed}
use libujo_c.State.Shape.{Shape}
use libujo_c.Writer.{Writer, new_memory_writer}
use libujo_c.Reader.{Reader, new_memory_reader}
use libujo_c.Reader.Next.{parse}
use libujo_c.Reader.Input.{Handler, Reads}
use libujo_c.Reader.Ends.{Stays, parse-Stays}
use libujo_c.Reader.Truncate.{cut, parse-cut}
use libujo_c.Types.{type_list, type_map, type_table, terminator}
use libujo_c.Words.Bytes.{length-memory_bytes}
use libujo_c.Call.Encode.{tag}
use libujo_c.Call.DecodeItem.{starts_with_type, body}
use libujo_c.Call.Effect.{bytes}
use libujo_c.Call.{
  Call, adds, list_opens, list_closes, map_opens, map_closes, table_opens, columns_end,
  table_closes, read_back,
}
use libujo_c.Call.Run.{AllFit, all_bytes, run}
use libujo_c.Call.Document.{IsSmall}
use libujo_c.Call.Parse.{Callback, Accepts}
use libujo_c.Call.RoundTrip.{
  read_document, loaded, loads, loaded-Parses, idle, new_memory_reader-idle, run-Document,
}

-- A reader that has nothing left before it stands at the end of its buffer.
pub at_end :
    {File Client : Type 0} {f : Handler Client} {d : Option Client} (p : Platform File)
    (block : List ℕ) (small : length block < 2 ^ 64) (x : Result (Reader File Client) (Unit {0}))
    (r : Reader File Client) (to : Shape)
    → Stays {Client = Client} p block small 0 x
    → x ≡ ok tt r
    → Reads f d r [] to
    → length block ≤ r.parsed
at_end p block small _ r to (returns a s w) e h =
    let same : s ≡ r = cc in
    let here : r.buffer ≡ some block = ap (λ u. u.buffer) (sym same) ∙ w.in_block in
    let whole : h.block ≡ block = cc in
    let none_left : drop r.parsed block ≡ [] = ap (drop r.parsed) (sym whole) ∙ h.ahead in
    omega (arith, length-drop r.parsed block, ap length none_left)
at_end p block small _ r to (raises code s w) e h = cc
at_end p block small _ r to faults e h = cc

-- Every call writes a byte at least.
length-bytes_pos : (e : Endian) (c : Call) → 1 ≤ length (bytes e c)
length-bytes_pos e (adds i) =
    let split = (starts_with_type e i).1 in
    omega (
      arith,
      ap length split,
      length-append (tag e (read_back i).type) (body e i),
      length-memory_bytes e 1 (read_back i).type,
    )
length-bytes_pos e list_opens = omega (arith, length-memory_bytes e 1 type_list)
length-bytes_pos e map_opens = omega (arith, length-memory_bytes e 1 type_map)
length-bytes_pos e table_opens = omega (arith, length-memory_bytes e 1 type_table)
length-bytes_pos e list_closes = omega (arith, length-memory_bytes e 1 terminator)
length-bytes_pos e map_closes = omega (arith, length-memory_bytes e 1 terminator)
length-bytes_pos e columns_end = omega (arith, length-memory_bytes e 1 terminator)
length-bytes_pos e table_closes = omega (arith, length-memory_bytes e 1 terminator)

pub length-le-all_bytes : (e : Endian) (cs : List Call) → length cs ≤ length (all_bytes e cs)
length-le-all_bytes e [] = omega arith
length-le-all_bytes e (c ∷ cs) = omega (
  arith,
  length-append (bytes e c) (all_bytes e cs),
  length-bytes_pos e c,
  length-le-all_bytes e cs,
)

module _ {File : Type 0} (p : Platform File) (g : Grants p) where
  -- If calls with arguments of their C types, on a new memory writer of a platform whose allocator
  -- serves every request, all succeed and close the document, and its size stays within a size_t,
  -- then a memory reader with a callback that returns no error, that gets fewer bytes of it, reads
  -- behind the end of its copy, wherever the document is cut.
  pub truncated-faults :
      {Client : Type 0} (f : Callback Client) (d : Option Client) (cs : List Call) (fuel n : ℕ)
      (w w' : Writer File)
      → Accepts f
      → AllFit cs
      → IsSmall p g cs
      → new_memory_writer p ≡ ok w tt
      → run p cs w ≡ ok tt w'
      → w'.state.state ≡ closed
      → w'.bytes ≤ fuel
      → n < w'.bytes
      → (r : Reader File Client) × (new_memory_reader p ≡ ok r tt)
        × (read_document p fuel f d w'.buffer n r ≡ fault)
  truncated-faults {Client} f d cs fuel n w w' accepts fits small new r over enough short =
      let doc = run-Document p g cs w w' fits small new r in
      let within : w'.bytes ≤ length w'.buffer =
        omega (arith, doc.stands.valid.sized, doc.stands.valid.within) in
      let start : Reader File Client = loaded p g f d w'.buffer w'.bytes in
      let block : List ℕ = take w'.bytes w'.buffer in
      let long : length block ≡ w'.bytes = length-take w'.bytes w'.buffer within in
      let fits_size : length block < 2 ^ 64 = omega (arith, doc.size, small, long) in
      let (r1, e, reads) =
        loaded-Parses p g f d cs fuel w' accepts fits small doc over
          (omega (arith, doc.size, length-le-all_bytes p.order cs)) in
      let ends : length block ≤ r1.parsed =
        at_end p block fits_size (parse p fuel start) r1 doc.to
          (parse-Stays p block fits_size fuel start (omega (arith, long)) (record {
            memory = refl;
            in_block = refl;
            from_low = omega arith;
            inside = omega arith;
          }))
          e reads in
      let stuck : parse p fuel (cut block n start) ≡ fault =
        parse-cut p block n (omega (arith, long)) fits_size fuel start r1
          (record { memory = refl; in_block = refl; inside = omega arith }) e
          (omega (arith, long)) in
      (
        idle p,
        new_memory_reader-idle p g f d,
        loads p g f d w'.buffer n (parse p fuel) (omega arith)
            ∙ ap (λ ys. parse p fuel (record start { buffer = some ys; buffersize = n }))
                (sym (take-take n w'.bytes w'.buffer (omega arith)))
            ∙ stuck,
      )
