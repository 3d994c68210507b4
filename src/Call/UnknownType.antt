-- ===== src/Call/UnknownType.antt =====
-- What src/ujo_reader.c does with a byte that is not the id of a type.
use mathlib.Core.Path.{subst}
use libujo_c.Base.{
  take, take-all, append_assoc, ℕ, ◌^◌, ◌≤◌, ◌<◌, ◌≡◌, refl, sym, ap, ◌∙◌, false, List, [], ◌∷◌,
  ◌++◌, map, Option, some, arith, length, ◌⊎◌, inl, inr,
}
use libujo_c.Base.Result.{ok, err, and_then}
use libujo_c.Types.{err_invalid_data}
use libujo_c.Platform.{Platform, Endian, little, big, Grants}
use libujo_c.State.{root, closed, same_state}
use libujo_c.State.Shape.{Shape}
use libujo_c.Words.{from_memory, from_low_bytes}
use libujo_c.Writer.{Writer, new_memory_writer}
use libujo_c.Writer.Put.{contents}
use libujo_c.Reader.{Reader, new_memory_reader}
use libujo_c.Reader.Next.{
  parse_value, scan_element, get_next, get_first, parse_loop, parse, element_size,
}
use libujo_c.Reader.Input.{Reads, takes}
use libujo_c.Call.{Call, seen}
use libujo_c.Call.Run.{AllFit, all_bytes, run}
use libujo_c.Call.Document.{header_bytes, IsSmall}
use libujo_c.Call.Header.{parse_header-Parses}
use libujo_c.Call.Parse.{Callback, Accepts, hand, parse_loop-prefix}
use libujo_c.Call.RoundTrip.{
  read_document, idle, loaded, loads, loaded-Reads, new_memory_reader-idle, run-Document,
}

-- No id that the switch of the reader knows: these are 0x00 to 0x13 and 0x30 to 0x32.
abbrev pub IsUnknown : ℕ → Type 0
IsUnknown t = (0x13 < t) × (t < 0x30 ⊎ 0x32 < t)

pub one_byte-value : (e : Endian) (t : ℕ) → from_memory e (t ∷ []) ≡ t
unfolding from_memory from_low_bytes
one_byte-value little t = omega arith
one_byte-value big t = omega arith

module _ {File Client : Type 0} (p : Platform File) where
  parse_value-unknown :
      (t : ℕ) (r : Reader File Client) → IsUnknown t → parse_value p t r ≡ err err_invalid_data r
  unfolding parse_value
  parse_value-unknown t r (low, inl below) = ground arith
  parse_value-unknown t r (low, inr above) = ground arith

module _ {File Client : Type 0} (p : Platform File) (g : Grants p) (f : Callback Client)
    (d : Option Client) where
  -- The id is passed, and nothing else is changed.
  get_next-unknown :
      (t : ℕ) (r : Reader File Client) (rest : List ℕ) (at : Shape)
      → IsUnknown t
      → same_state at.0 closed ≡ false
      → Reads (some f) d r (t ∷ rest) at
      → (r' : Reader File Client) × (get_next p r ≡ err err_invalid_data r')
        × Reads (some f) d r' rest at
  unfolding get_next scan_element
  get_next-unknown t r rest at unknown goes_on h =
      let (r1, e, h1) = takes p g (some f) d r (t ∷ []) rest 1 at h refl in
      (
        r1,
        rw (
          ap (λ s. same_state s closed) h.here.current ∙ goes_on,
          g element_size,
          e,
          one_byte-value p.order t,
          parse_value-unknown p t r1 unknown,
        ),
        h1,
      )

module _ {File : Type 0} (p : Platform File) (g : Grants p) where
  -- If calls on a new memory writer succeed as for the round trip but leave the document open, and
  -- the bytes are followed by one that is not the id of a type, then a new memory reader with a
  -- callback that returns no error, with fuel for each call and a block whose length a size_t holds,
  -- hands it the element of each call, in order, and returns the error of invalid data.
  pub unknown_type-fails :
      {Client : Type 0} (f : Callback Client) (d : Option Client) (cs : List Call) (fuel t : ℕ)
      (rest : List ℕ) (w w' : Writer File)
      → Accepts f
      → AllFit cs
      → IsSmall p g cs
      → new_memory_writer p ≡ ok w tt
      → run p cs w ≡ ok tt w'
      → same_state w'.state.state closed ≡ false
      → length cs ≤ fuel
      → IsUnknown t
      → length (contents w' ++ t ∷ rest) < 2 ^ 64
      → (r r' : Reader File Client) × (new_memory_reader p ≡ ok r tt)
        × (read_document p fuel f d (contents w' ++ t ∷ rest) (length (contents w' ++ t ∷ rest)) r
            ≡ err err_invalid_data r')
        × (r'.on_element_data ≡ hand f (map seen cs) d)
  unfolding parse get_first
  unknown_type-fails {Client} f d cs fuel t rest w w' accepts fits small new r goes_on enough
        unknown size =
      let doc = run-Document p g cs w w' fits small new r in
      let block : List ℕ = contents w' ++ t ∷ rest in
      let start : Reader File Client = loaded p g f d block (length block) in
      let ahead : take (length block) block ≡ header_bytes ++ (all_bytes p.order cs ++ t ∷ rest) =
        take-all (length block) block (omega arith)
        ∙ ap (λ xs. xs ++ t ∷ rest) doc.holds_all
        ∙ append_assoc header_bytes (all_bytes p.order cs) (t ∷ rest) in
      let (r1, e1, h1) =
        parse_header-Parses p g (some f) d start (all_bytes p.order cs ++ t ∷ rest) (root, [])
          (subst (λ xs. Reads (some f) d start xs (root, [])) ahead
            (loaded-Reads p g f d block (length block) (omega arith) size)) in
      let (left, r2, e2, h2) =
        parse_loop-prefix p g f accepts cs fuel d r1 (t ∷ rest) (root, []) doc.to fits enough h1
          doc.path in
      let (r3, e3, h3) =
        get_next-unknown p g f (hand f (map seen cs) d) t r2 rest doc.to unknown
          (ap (λ s. same_state s closed) (sym doc.stands.here.current) ∙ goes_on) h2 in
      (
        idle p,
        r3,
        new_memory_reader-idle p g f d,
        loads p g f d block (length block) (parse p fuel) (omega arith)
            ∙ ap (λ s. and_then (and_then s (λ _. get_next p)) (parse_loop p fuel)) e1
            ∙ e2
            ∙ ap (λ s. and_then s (parse_loop p left)) e3,
        h3.data_is,
      )
