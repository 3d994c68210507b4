-- ===== src/Call/Header.antt =====
-- The header of a document, read by `_ujo_reader_parse_header` of src/ujo_reader.c.
use libujo_c.Base.{ℕ, ◌≡◌, refl, ◌∙◌, true, List, [], ◌∷◌, ◌++◌, Option, ◌==◌}
use libujo_c.Base.Result.{modify, report_error-true, ◌>>=◌}
use libujo_c.Types.{magic, err_invalid_data}
use libujo_c.Platform.{Platform, Endian, little, big, Grants}
use libujo_c.State.Shape.{Shape}
use libujo_c.Words.{from_memory, uint16_swap, from_low_bytes, swap_uint16}
use libujo_c.Reader.{Reader, get_data, parse_header, same_bytes}
use libujo_c.Reader.Input.{Handler, Reads, Parses, then-Parses, takes}
use libujo_c.Call.Document.{header_bytes}

version_is_one : (e : Endian) → (uint16_swap e (from_memory e (1 ∷ 0 ∷ [])) == 1) ≡ true
unfolding uint16_swap from_memory from_low_bytes swap_uint16
version_is_one little = refl
version_is_one big = refl

module _ {File Client : Type 0} (p : Platform File) (g : Grants p) (f : Handler Client) where
  -- Fields that only the header sets do not matter for what is read next.
  pub with_magic :
      (d : Option Client) (code : List ℕ) (r : Reader File Client) (rest : List ℕ) (at : Shape)
      → Reads f d r rest at
      → Reads f d (record r { magic_code = code }) rest at
  with_magic d code r rest at h = record {
    memory = h.memory;
    block = h.block;
    in_block = h.in_block;
    ahead = h.ahead;
    within = h.within;
    small = h.small;
    here = h.here;
    handler = h.handler;
    data_is = h.data_is;
  }

  pub with_version :
      (d : Option Client) (n : ℕ) (r : Reader File Client) (rest : List ℕ) (at : Shape)
      → Reads f d r rest at
      → Reads f d (record r { version = n }) rest at
  with_version d n r rest at h = record {
    memory = h.memory;
    block = h.block;
    in_block = h.in_block;
    ahead = h.ahead;
    within = h.within;
    small = h.small;
    here = h.here;
    handler = h.handler;
    data_is = h.data_is;
  }

  compression-Parses :
      (d : Option Client) (r : Reader File Client) (rest : List ℕ) (at : Shape)
      → Reads f d r (0 ∷ rest) at
      → Parses f d
          (get_data p 1 >>= λ bytes.
            modify (λ v. record v { compression = from_memory p.order bytes }))
          r
          tt
          rest
          at
  compression-Parses d r rest at h =
      then-Parses p g f d (get_data p 1) _ r (0 ∷ []) tt rest rest at at
        (takes p g f d r (0 ∷ []) rest 1 at h refl)
        λ r1 h1. (
          record r1 { compression = from_memory p.order (0 ∷ []) },
          refl,
          record {
            memory = h1.memory;
            block = h1.block;
            in_block = h1.in_block;
            ahead = h1.ahead;
            within = h1.within;
            small = h1.small;
            here = h1.here;
            handler = h1.handler;
            data_is = h1.data_is;
          },
        )

  -- The header of a document is read.
  pub parse_header-Parses :
      (d : Option Client) (r : Reader File Client) (rest : List ℕ) (at : Shape)
      → Reads f d r (header_bytes ++ rest) at
      → Parses f d (parse_header p) r tt rest at
  unfolding parse_header same_bytes
  parse_header-Parses d r rest at h =
      let number : ℕ = uint16_swap p.order (from_memory p.order (1 ∷ 0 ∷ [])) in
      then-Parses p g f d (get_data p 4) _ r magic tt (1 ∷ 0 ∷ 0 ∷ rest) rest at at
        (takes p g f d r magic (1 ∷ 0 ∷ 0 ∷ rest) 4 at h refl)
        λ r1 h1.
          then-Parses p g f d (get_data p 2) _ (record r1 { magic_code = magic }) (1 ∷ 0 ∷ []) tt
            (0 ∷ rest) rest at at
            (takes p g f d (record r1 { magic_code = magic }) (1 ∷ 0 ∷ []) (0 ∷ rest) 2 at
              (with_magic d magic r1 (1 ∷ 0 ∷ 0 ∷ rest) at h1) refl)
            λ r2 h2.
              let r2' = record r2 { version = number } in
              let (r3, e, h3) =
                compression-Parses d r2' rest at (with_version d number r2 (0 ∷ rest) at h2) in
              (
                r3,
                report_error-true (number == 1) err_invalid_data _ r2' (version_is_one p.order) ∙ e,
                h3,
              )
