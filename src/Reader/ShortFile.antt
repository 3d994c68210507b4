-- ===== src/Reader/ShortFile.antt =====
-- The reader of src/ujo_reader.c on a file that ends too early: it reports an error, or does what it
-- does on a buffer with the whole block.
use mathlib.Core.Path.{subst₂}
use libujo_c.Base.{
  ℕ, ◌+◌, ◌-◌, ◌%◌, ◌^◌, ◌≤◌, ◌<◌, ◌≡◌, refl, sym, ap, true, false, List, some, arith, length, ltb,
  Bool-cases, inl, inr, take, drop, length-take, ◌==◌,
}
use libujo_c.Base.Result.{Result, ok, err}
use libujo_c.Types.{memory_access, file_access, err_file}
use libujo_c.Platform.{Platform}
use libujo_c.Reader.{Reader, get_data, get_data_by, get_memory_data, get_from, read_file}
use libujo_c.Reader.Next.{parse}
use libujo_c.Reader.Simulate.{
  Source, Same, Same-input, Alike, excused, second_may_fail, second_fails, both_fault, same_ok,
  same_err, same_fuel, parse-Both,
}
use libujo_c.Reader.Stream.{Holds}
use libujo_c.Reader.Truncate.{take-drop-take}

-- A file of n bytes: `fread` tells how many there are from position i on, where it is asked for more.
pub record Ends {File : Type 0} (p : Platform File) (n : ℕ) (at : ℕ → File) : Type 0 where
  pub rest : (i k : ℕ) → i ≤ n → n < i + k → (p.fread (at i) k).0 ≡ n - i

-- The first input is the block in memory, the second a file that holds its first n bytes.
pub record Starts {File : Type 0} (block : List ℕ) (n : ℕ) (at : ℕ → File) (a b : Source File)
    : Type 0 where
  pub memory : a.type ≡ memory_access
  pub in_file : b.type ≡ file_access
  pub whole : a.buffer ≡ some block
  pub stream : b.file ≡ some (at a.parsed)
  pub inside : a.parsed ≤ n

module _ {File Client : Type 0} (p : Platform File) (block : List ℕ) (n : ℕ)
    (fits : n ≤ length block) (small : length block < 2 ^ 64) (at : ℕ → File)
    (holds : Holds p (take n block) at) (ends : Ends p n at) where
  get_from-Alike :
      (k : ℕ) (r s : Reader File Client)
      → Same (Starts block n at) r s
      → Alike
          (Starts block n at)
          second_may_fail
          (get_from (some block) k r)
          (read_file p (some (at r.parsed)) k s)
  unfolding get_from read_file
  get_from-Alike k r s b =
      let i = b.inputs in
      elim (Bool-cases (ltb n (r.parsed + k))) [
        | inl short ↦
            let given = ends.rest r.parsed k i.inside (ground arith) in
            let less : ((p.fread (at r.parsed) k).0 == k) ≡ false = ground (arith, given) in
            rw less (excused (second_fails _ _))
        | inr enough ↦
            let given = holds.gives r.parsed k (ground (arith, length-take n block fits)) in
            let bytes : take k (drop r.parsed (take n block)) ≡ take k (drop r.parsed block) =
              take-drop-take k r.parsed n block (ground arith) in
            let within : ltb (length block) (r.parsed + k) ≡ false = ground arith in
            let wrapped : (r.parsed + k) % 2 ^ 64 ≡ r.parsed + k = ground (arith, small) in
            let equal : (k == k) ≡ true = ground arith in
            let after : Same (Starts block n at) (record r { parsed = r.parsed + k })
                (record s { file = some (at (r.parsed + k)) }) =
              Same-input (Starts block n at) b (record {
                memory = i.memory;
                in_file = i.in_file;
                whole = i.whole;
                stream = refl;
                inside = ground arith;
              }) in
            rw (within, given, bytes, wrapped, equal)
              (same_ok (take k (drop r.parsed block)) _ _ after)
      ]

  get_data-Alike :
      (k : ℕ) (r s : Reader File Client)
      → Same (Starts block n at) r s
      → Alike (Starts block n at) second_may_fail (get_data p k r) (get_data p k s)
  unfolding get_data get_data_by get_memory_data
  get_data-Alike k r s b =
      let i = b.inputs in
      subst₂
        (λ t u.
          Alike (Starts block n at) second_may_fail (get_data_by p t k r) (get_data_by p u k s))
        (sym i.memory) (sym i.in_file)
        (subst₂
          (λ x y. Alike (Starts block n at) second_may_fail (get_from x k r) (read_file p y k s))
          (sym i.whole) (sym i.stream) (get_from-Alike k r s b))

  fails_of :
      (x y : Result (Reader File Client) (Unit {0})) (r : Reader File Client)
      → Alike (Starts block n at) second_may_fail x y
      → x ≡ ok tt r
      → n < r.parsed
      → (s : Reader File Client) × (y ≡ err err_file s)
  fails_of x y r (excused (second_fails z s)) e late = (s, refl)
  fails_of x y r (excused (both_fault why)) e late = cc
  fails_of x y r (same_ok a t u b) e late =
      let same : t ≡ r = cc in absurd (omega (arith, b.inputs.inside, ap (λ v. v.parsed) same))
  fails_of x y r (same_err code t u b) e late = cc
  fails_of x y r same_fuel e late = cc

  -- If `ujo_reader_parse` succeeds on a buffer, then on a file with a beginning of it that ends before
  -- the last byte that was read it returns the error of a file that gave too little.
  pub parse-short :
      (fuel : ℕ) (r s r' : Reader File Client)
      → Same (Starts block n at) r s
      → parse p fuel r ≡ ok tt r'
      → n < r'.parsed
      → (s' : Reader File Client) × (parse p fuel s ≡ err err_file s')
  parse-short fuel r s r' b e late =
      fails_of (parse p fuel r) (parse p fuel s) r'
        (parse-Both p (Starts block n at) second_may_fail get_data-Alike fuel r s b) e late
