-- ===== src/Reader/Stream.antt =====
-- The reader of src/ujo_reader.c on a file, which does what it does on a buffer with the same bytes,
-- as far as that one does not read behind the end.
use mathlib.Core.Path.{subst, subst₂}
use libujo_c.Base.{
  ℕ, ◌+◌, ◌%◌, ◌^◌, ◌≤◌, ◌<◌, ◌≡◌, refl, sym, true, List, some, arith, length, ltb, Bool-cases, inl,
  inr, take, drop, ◌==◌,
}
use libujo_c.Base.Result.{Result, ok}
use libujo_c.Types.{memory_access, file_access}
use libujo_c.Platform.{Platform}
use libujo_c.Reader.{Reader, get_data, get_data_by, get_memory_data, get_from, read_file}
use libujo_c.Reader.Next.{parse}
use libujo_c.Reader.Simulate.{
  Source, Same, Same-input, Alike, excused, first_may_fault, first_faults, both_fault, same_ok,
  same_err, same_fuel, parse-Both,
}

-- An open file that holds the block: `at i` is the stream with the position i, and `fread` gives all
-- the bytes that it is asked for where the block has them.
pub record Holds {File : Type 0} (p : Platform File) (block : List ℕ) (at : ℕ → File) : Type 0 where
  pub gives :
      (i n : ℕ) → i + n ≤ length block → p.fread (at i) n ≡ (n, take n (drop i block), at (i + n))

-- The first input is the block in memory, the second a file that holds it.
pub record Streamed {File : Type 0} (block : List ℕ) (at : ℕ → File) (a b : Source File)
    : Type 0 where
  pub memory : a.type ≡ memory_access
  pub in_file : b.type ≡ file_access
  pub whole : a.buffer ≡ some block
  pub stream : b.file ≡ some (at a.parsed)

module _ {File Client : Type 0} (p : Platform File) (block : List ℕ) (small : length block < 2 ^ 64)
    (at : ℕ → File) (holds : Holds p block at) where
  get_from-Alike :
      (k : ℕ) (r s : Reader File Client)
      → Same (Streamed block at) r s
      → Alike
          (Streamed block at)
          first_may_fault
          (get_from (some block) k r)
          (read_file p (some (at r.parsed)) k s)
  unfolding get_from read_file
  get_from-Alike k r s b =
      let i = b.inputs in
      elim (Bool-cases (ltb (length block) (r.parsed + k))) [
        | inl short ↦ rw short (excused (first_faults _))
        | inr enough ↦
            let given = holds.gives r.parsed k (ground arith) in
            let wrapped : (r.parsed + k) % 2 ^ 64 ≡ r.parsed + k = ground (arith, small) in
            let equal : (k == k) ≡ true = ground arith in
            let after : Same (Streamed block at) (record r { parsed = r.parsed + k })
                (record s { file = some (at (r.parsed + k)) }) =
              Same-input (Streamed block at) b (record {
                memory = i.memory;
                in_file = i.in_file;
                whole = i.whole;
                stream = refl;
              }) in
            rw (enough, given, wrapped, equal) (same_ok (take k (drop r.parsed block)) _ _ after)
      ]

  get_data-Alike :
      (k : ℕ) (r s : Reader File Client)
      → Same (Streamed block at) r s
      → Alike (Streamed block at) first_may_fault (get_data p k r) (get_data p k s)
  unfolding get_data get_data_by get_memory_data
  get_data-Alike k r s b =
      let i = b.inputs in
      subst₂
        (λ t u.
          Alike (Streamed block at) first_may_fault (get_data_by p t k r) (get_data_by p u k s))
        (sym i.memory) (sym i.in_file)
        (subst₂
          (λ x y. Alike (Streamed block at) first_may_fault (get_from x k r) (read_file p y k s))
          (sym i.whole) (sym i.stream) (get_from-Alike k r s b))

  Alike-ok :
      (x y : Result (Reader File Client) (Unit {0})) (r : Reader File Client)
      → Alike (Streamed block at) first_may_fault x y
      → x ≡ ok tt r
      → (s : Reader File Client) × (y ≡ ok tt s) × Same (Streamed block at) r s
  Alike-ok x y r (excused (first_faults z)) e = cc
  Alike-ok x y r (excused (both_fault why)) e = cc
  Alike-ok x y r (same_ok a t u b) e =
      let same : t ≡ r = cc in (u, refl, subst (λ v. Same (Streamed block at) v u) same b)
  Alike-ok x y r (same_err code t u b) e = cc
  Alike-ok x y r same_fuel e = cc

  -- If `ujo_reader_parse` succeeds on a buffer, then it succeeds on a file that holds the same bytes,
  -- and leaves the same state, header and client's data.
  pub parse-stream :
      (fuel : ℕ) (r s r' : Reader File Client)
      → Same (Streamed block at) r s
      → parse p fuel r ≡ ok tt r'
      → (s' : Reader File Client) × (parse p fuel s ≡ ok tt s') × Same (Streamed block at) r' s'
  parse-stream fuel r s r' b e =
      Alike-ok (parse p fuel r) (parse p fuel s) r'
        (parse-Both p (Streamed block at) first_may_fault get_data-Alike fuel r s b) e
