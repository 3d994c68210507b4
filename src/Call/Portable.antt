-- ===== src/Call/Portable.antt =====
-- A document that src/ujo_writer.c wrote on one platform, read by src/ujo_reader.c on another one,
-- whose byte order may be the other.
use mathlib.Core.Path.{subst}
use libujo_c.Base.{
  ℕ, ◌≤◌, ◌≡◌, refl, sym, ap, ◌∙◌, Bool, true, false, List, [], ◌∷◌, ◌++◌, map, Option, some, arith,
  length, take,
}
use libujo_c.Base.Result.{ok}
use libujo_c.Types.{type_list, type_map, type_table, terminator}
use libujo_c.Platform.{Platform, Endian, Grants}
use libujo_c.State.{root, closed}
use libujo_c.Words.Bytes.{
  memory_bytes-uint16_swap, memory_bytes-uint32_swap, memory_bytes-uint64_swap,
}
use libujo_c.Writer.{Writer, new_memory_writer}
use libujo_c.Writer.Entry.{joined}
use libujo_c.Reader.{Reader, new_memory_reader}
use libujo_c.Reader.Next.{parse}
use libujo_c.Reader.Input.{Reads}
use libujo_c.Call.{
  Call, adds, list_opens, list_closes, map_opens, map_closes, table_opens, columns_end,
  table_closes, seen, Item, string_c, string_u8, string_u16, string_u32, binary,
}
use libujo_c.Call.Encode.{pieces, tag}
use libujo_c.Call.Effect.{bytes}
use libujo_c.Call.Run.{AllFit, all_bytes, run}
use libujo_c.Call.Document.{IsSmall, one_byte, header_bytes}
use libujo_c.Call.Parse.{Callback, Accepts, hand, parse-delivers}
use libujo_c.Call.RoundTrip.{
  read_document, idle, loaded, loads, loaded-Reads, new_memory_reader-idle, run-Document,
}

-- A string or binary value has a length field, which is written without a swap.
abbrev pub has_length : Item → Bool
has_length (string_c s n) = true
has_length (string_u8 s n) = true
has_length (string_u16 s n) = true
has_length (string_u32 s n) = true
has_length (binary t s n) = true
has_length _ = false

abbrev pub IsPortable : Call → Type 0
IsPortable (adds i) = has_length i ≡ false
IsPortable _ = Unit {0}

abbrev pub AllPortable : List Call → Type 0
AllPortable [] = Unit {0}
AllPortable (c ∷ cs) = IsPortable c × AllPortable cs

-- The bytes of an integer, lowest first, whatever the byte order is.
ruleset low_bytes_first =
    (one_byte, memory_bytes-uint16_swap, memory_bytes-uint32_swap, memory_bytes-uint64_swap)

module _ (e e' : Endian) where
  same_tag : (t : ℕ) → tag e t ≡ tag e' t
  same_tag t = one_byte e t ∙ sym (one_byte e' t)

  pieces-portable : (i : Item) → has_length i ≡ false → pieces e i ≡ pieces e' i
  pieces-portable (string_c s n) h = cc
  pieces-portable (string_u8 s n) h = cc
  pieces-portable (string_u16 s n) h = cc
  pieces-portable (string_u32 s n) h = cc
  pieces-portable (binary t s n) h = cc
  pieces-portable i h = simp low_bytes_first

  bytes-portable : (c : Call) → IsPortable c → bytes e c ≡ bytes e' c
  bytes-portable (adds i) h = ap joined (pieces-portable i h)
  bytes-portable list_opens h = same_tag type_list
  bytes-portable map_opens h = same_tag type_map
  bytes-portable table_opens h = same_tag type_table
  bytes-portable list_closes h = same_tag terminator
  bytes-portable map_closes h = same_tag terminator
  bytes-portable columns_end h = same_tag terminator
  bytes-portable table_closes h = same_tag terminator

  -- Calls that write no lengths write the same bytes in either byte order.
  pub all_bytes-portable : (cs : List Call) → AllPortable cs → all_bytes e cs ≡ all_bytes e' cs
  all_bytes-portable [] h = refl
  all_bytes-portable (c ∷ cs) h = rw (bytes-portable c h.0, all_bytes-portable cs h.1) refl

module _ {File File' : Type 0} (p : Platform File) (g : Grants p) (q : Platform File')
    (g' : Grants q) where
  -- A document without strings and binary values, written into memory on one platform as for the
  -- round trip, is read back from its bytes on any other platform whose allocator serves every
  -- request, of either byte order: a new memory reader there with a callback that returns no error
  -- and fuel for each call parses it without an error and hands the callback the element of each call, in order.
  pub round_trip-portable :
      {Client : Type 0} (f : Callback Client) (d : Option Client) (cs : List Call) (fuel : ℕ)
      (w w' : Writer File)
      → Accepts f
      → AllFit cs
      → AllPortable cs
      → IsSmall p g cs
      → new_memory_writer p ≡ ok w tt
      → run p cs w ≡ ok tt w'
      → w'.state.state ≡ closed
      → length cs ≤ fuel
      → (r r' : Reader File' Client) × (new_memory_reader q ≡ ok r tt)
        × (read_document q fuel f d w'.buffer w'.bytes r ≡ ok tt r')
        × (r'.on_element_data ≡ hand f (map seen cs) d)
  round_trip-portable f d cs fuel w w' accepts fits same small new r over enough =
      let doc = run-Document p g cs w w' fits small new r in
      let within : w'.bytes ≤ length w'.buffer =
        omega (arith, doc.stands.valid.sized, doc.stands.valid.within) in
      let start = loaded q g' f d w'.buffer w'.bytes in
      let here : take w'.bytes w'.buffer ≡ header_bytes ++ all_bytes q.order cs =
        doc.holds_all
        ∙ ap (λ xs. header_bytes ++ xs) (all_bytes-portable p.order q.order cs same) in
      let (r1, e, reads) =
        parse-delivers q g' f accepts cs fuel d start (root, []) doc.to fits enough
          (subst (λ xs. Reads (some f) d start xs (root, [])) here
            (loaded-Reads q g' f d w'.buffer w'.bytes within (omega (arith, doc.size, small))))
          doc.path (sym doc.stands.here.current ∙ over) in
      (
        idle q,
        r1,
        new_memory_reader-idle q g' f d,
        loads q g' f d w'.buffer w'.bytes (parse q fuel) within ∙ e,
        reads.data_is,
      )
