-- ===== src/Call/BadHeader.antt =====
-- What src/ujo_reader.c does with a block that does not begin like a document of version 1.
use mathlib.Core.Path.{subst}
use libujo_c.Base.{
  ℕ, ◌+◌, ◌*◌, ◌/◌, ◌%◌, ◌^◌, ◌<◌, ◌≡◌, refl, sym, ap, ◌∙◌, true, false, Bool-cases, List, [], ◌∷◌,
  ◌++◌, Option, some, arith, length, inl, inr, ◌==◌, take-all,
}
use libujo_c.Base.Result.{ok, err, and_then}
use libujo_c.Types.{magic, err_invalid_data}
use libujo_c.Platform.{Platform, Endian, Grants}
use libujo_c.State.{root}
use libujo_c.State.Shape.{Shape}
use libujo_c.Words.{from_memory, uint16_swap, low_bytes}
use libujo_c.Words.Bytes.{uint16_swap-from_memory}
use libujo_c.Reader.{Reader, get_data, parse_header, same_bytes, new_memory_reader}
use libujo_c.Reader.Next.{get_first, get_next, parse_loop, parse}
use libujo_c.Reader.Input.{Reads, takes}
use libujo_c.Call.{AllBelow}
use libujo_c.Call.Effect.{both-true}
use libujo_c.Call.Header.{with_magic}
use libujo_c.Call.Parse.{Callback}
use libujo_c.Call.RoundTrip.{
  read_document, idle, loaded, loads, loaded-Reads, new_memory_reader-idle,
}

same_bytes→eq : (xs ys : List ℕ) → length ys ≡ length xs → same_bytes xs ys ≡ true → ys ≡ xs
unfolding same_bytes
same_bytes→eq [] [] l e = refl
same_bytes→eq [] (y ∷ ys) l e = absurd (omega (arith, l))
same_bytes→eq (x ∷ xs) [] l e = absurd (omega (arith, l))
same_bytes→eq (x ∷ xs) (y ∷ ys) l e =
    let (here, there) = both-true (x == y) (same_bytes xs ys) e in
    let first : y ≡ x = ground arith in
    ap (λ k. k ∷ ys) first ∙ ap (λ zs. x ∷ zs) (same_bytes→eq xs ys (omega (arith, l)) there)

-- The two bytes of a version are those of the number 1.
version→eq :
    (e : Endian) (bytes : List ℕ)
    → length bytes ≡ 2
    → AllBelow 256 bytes
    → (uint16_swap e (from_memory e bytes) == 1) ≡ true
    → bytes ≡ 1 ∷ 0 ∷ []
unfolding low_bytes
version→eq e [] l b one = absurd (omega (arith, l))
version→eq e (x ∷ []) l b one = absurd (omega (arith, l))
version→eq e (x ∷ y ∷ []) l b one =
    let number : uint16_swap e (from_memory e (low_bytes 2 (x + 256 * y))) ≡ x + 256 * y =
      uint16_swap-from_memory e (x + 256 * y) (omega (arith, b.0, b.1.0)) in
    let first : (x + 256 * y) % 256 ≡ x = omega (arith, b.0) in
    let second : (x + 256 * y) / 256 % 256 ≡ y = omega (arith, b.0, b.1.0) in
    let same : low_bytes 2 (x + 256 * y) ≡ x ∷ y ∷ [] =
      ap (λ k. k ∷ (x + 256 * y) / 256 % 256 ∷ []) first ∙ ap (λ k. x ∷ k ∷ []) second in
    let value : uint16_swap e (from_memory e (x ∷ y ∷ [])) ≡ x + 256 * y =
      ap (λ ys. uint16_swap e (from_memory e ys)) (sym same) ∙ number in
    let whole : x + 256 * y ≡ 1 = ground (arith, value) in
    let low : x ≡ 1 = omega (arith, whole) in
    let high : y ≡ 0 = omega (arith, whole) in ap (λ k. k ∷ y ∷ []) low ∙ ap (λ k. 1 ∷ k ∷ []) high
version→eq e (x ∷ y ∷ z ∷ zs) l b one = absurd (omega (arith, l))

module _ {File Client : Type 0} (p : Platform File) (g : Grants p) (f : Callback Client)
    (d : Option Client) where
  -- The header is refused, and the client's data is left.
  abbrev Refused : Reader File Client → Type 0
  Refused r =
      (r' : Reader File Client) × (parse_header p r ≡ err err_invalid_data r')
      × (r'.on_element_data ≡ d)

  magic-Refused :
      (r r1 : Reader File Client) (code : List ℕ)
      → get_data p 4 r ≡ ok code r1
      → same_bytes magic code ≡ false
      → r1.on_element_data ≡ d
      → Refused r
  unfolding parse_header
  magic-Refused r r1 code e other data_is =
      let r2 = record r1 { magic_code = code } in (r2, rw (e, other), data_is)

  version-Refused :
      (r r1 r2 : Reader File Client) (code version : List ℕ)
      → get_data p 4 r ≡ ok code r1
      → same_bytes magic code ≡ true
      → get_data p 2 (record r1 { magic_code = code }) ≡ ok version r2
      → (uint16_swap p.order (from_memory p.order version) == 1) ≡ false
      → r2.on_element_data ≡ d
      → Refused r
  unfolding parse_header
  version-Refused r r1 r2 code version e same e' other data_is =
      let number : ℕ = uint16_swap p.order (from_memory p.order version) in
      let r3 = record r2 { version = number } in (r3, rw (e, same, e', other), data_is)

  header-Refused :
      (r : Reader File Client) (code version rest : List ℕ) (at : Shape)
      → Reads (some f) d r (code ++ (version ++ rest)) at
      → length code ≡ 4
      → length version ≡ 2
      → AllBelow 256 version
      → ¬ ((code ≡ magic) × (version ≡ 1 ∷ 0 ∷ []))
      → Refused r
  header-Refused r code version rest at h l l' b wrong =
      let (r1, e, h1) = takes p g (some f) d r code (version ++ rest) 4 at h l in
      let r1' = record r1 { magic_code = code } in
      let (r2, e', h2) =
        takes p g (some f) d r1' version rest 2 at
          (with_magic p g (some f) d code r1 (version ++ rest) at h1) l' in
      let number : ℕ = uint16_swap p.order (from_memory p.order version) in
      elim (Bool-cases (same_bytes magic code)) [
        | inr other ↦ magic-Refused r r1 code e other h1.data_is
        | inl same ↦ elim (Bool-cases (number == 1)) [
          | inl one ↦
              absurd (wrong (same_bytes→eq magic code l same, version→eq p.order version l' b one))
          | inr other ↦ version-Refused r r1 r2 code version e same e' other h2.data_is
        ]
      ]

  -- On a platform whose allocator serves every request, a block of at least six bytes, whose length a
  -- size_t holds, that does not begin with "_UJO" and the version 1 is refused as
  -- invalid data by a new memory reader, and the data of its client is left.
  pub read_document-refused :
      (code version rest : List ℕ) (fuel : ℕ)
      → length code ≡ 4
      → length version ≡ 2
      → AllBelow 256 version
      → length (code ++ (version ++ rest)) < 2 ^ 64
      → ¬ ((code ≡ magic) × (version ≡ 1 ∷ 0 ∷ []))
      → (r r' : Reader File Client) × (new_memory_reader p ≡ ok r tt)
        × (read_document p fuel f d
              (code ++ (version ++ rest))
              (length (code ++ (version ++ rest)))
              r
            ≡ err err_invalid_data r')
        × (r'.on_element_data ≡ d)
  unfolding parse get_first
  read_document-refused code version rest fuel l l' b small wrong =
      let block : List ℕ = code ++ (version ++ rest) in
      let start : Reader File Client = loaded p g f d block (length block) in
      let (r', e, same) =
        header-Refused start code version rest (root, [])
          (subst (λ xs. Reads (some f) d start xs (root, []))
            (take-all (length block) block (omega arith))
            (loaded-Reads p g f d block (length block) (omega arith) small))
          l l' b wrong in
      (
        idle p,
        r',
        new_memory_reader-idle p g f d,
        loads p g f d block (length block) (parse p fuel) (omega arith)
            ∙ ap (λ s. and_then (and_then s (λ _. get_next p)) (parse_loop p fuel)) e,
        same,
      )
