-- ===== src/Reader/Truncate.antt =====
-- The reader of src/ujo_reader.c on a buffer that is cut short: it reads behind the end, or does what
-- it does on the whole buffer.
use mathlib.Core.Path.{subst₂}
use libujo_c.Base.{
  ℕ, zero, suc, ◌+◌, ◌%◌, ◌^◌, ◌≤◌, ◌<◌, ◌≡◌, refl, sym, ap, false, List, [], ◌∷◌, some, arith,
  length, ltb, Bool-cases, inl, inr, take, drop, length-take,
}
use libujo_c.Base.Result.{Result, ok, fault}
use libujo_c.Types.{memory_access}
use libujo_c.Platform.{Platform}
use libujo_c.Reader.{Reader, get_data, get_data_by, get_memory_data, get_from}
use libujo_c.Reader.Next.{parse}
use libujo_c.Reader.Simulate.{
  Source, Same, Same-input, Alike, excused, second_may_fault, second_faults, both_fault, same_ok,
  same_err, same_fuel, parse-Both,
}

pub take-drop-take :
    (k i n : ℕ) (xs : List ℕ) → i + k ≤ n → take k (drop i (take n xs)) ≡ take k (drop i xs)
take-drop-take zero i n xs h = refl
take-drop-take (suc k) i zero xs h = absurd (omega arith)
take-drop-take (suc k) zero (suc n) [] h = refl
take-drop-take (suc k) zero (suc n) (x ∷ xs) h =
    ap (◌∷◌ x) (take-drop-take k zero n xs (omega arith))
take-drop-take (suc k) (suc i) (suc n) [] h = refl
take-drop-take (suc k) (suc i) (suc n) (x ∷ xs) h = take-drop-take (suc k) i n xs (omega arith)

-- The second input is the beginning of the first.
pub record Begins {File : Type 0} (block : List ℕ) (n : ℕ) (a b : Source File) : Type 0 where
  pub memory : a.type ≡ memory_access
  pub memory_too : b.type ≡ memory_access
  pub whole : a.buffer ≡ some block
  pub beginning : b.buffer ≡ some (take n block)
  pub together : a.parsed ≡ b.parsed
  pub inside : b.parsed ≤ n

module _ {File Client : Type 0} where
  -- The reader with the first n bytes of its buffer.
  abbrev pub cut : List ℕ → ℕ → Reader File Client → Reader File Client
  cut block n r = record r { buffer = some (take n block); buffersize = n }

  pub record Before (block : List ℕ) (n : ℕ) (r : Reader File Client) : Type 0 where
    pub memory : r.type ≡ memory_access
    pub in_block : r.buffer ≡ some block
    pub inside : r.parsed ≤ n

module _ {File Client : Type 0} (p : Platform File) (block : List ℕ) (n : ℕ)
    (fits : n ≤ length block) (small : length block < 2 ^ 64) where
  get_from-Alike :
      (k : ℕ) (r s : Reader File Client)
      → Same (Begins block n) r s
      → Alike
          (Begins block n)
          second_may_fault
          (get_from (some block) k r)
          (get_from (some (take n block)) k s)
  unfolding get_from
  get_from-Alike k r s b =
      let i = b.inputs in
      elim (Bool-cases (ltb n (s.parsed + k))) [
        | inl short ↦ rw (length-take n block fits, short) (excused (second_faults _))
        | inr enough ↦
            let whole : ltb (length block) (s.parsed + k) ≡ false = ground arith in
            let bytes : take k (drop s.parsed (take n block)) ≡ take k (drop s.parsed block) =
              take-drop-take k s.parsed n block (ground arith) in
            let after : Same (Begins block n) (record r { parsed = (s.parsed + k) % 2 ^ 64 })
                (record s { parsed = (s.parsed + k) % 2 ^ 64 }) =
              Same-input (Begins block n) b (record {
                memory = i.memory;
                memory_too = i.memory_too;
                whole = i.whole;
                beginning = i.beginning;
                together = refl;
                inside = ground (arith, small);
              }) in
            rw (length-take n block fits, enough, i.together, whole, bytes)
              (same_ok (take k (drop s.parsed block)) _ _ after)
      ]

  get_data-Alike :
      (k : ℕ) (r s : Reader File Client)
      → Same (Begins block n) r s
      → Alike (Begins block n) second_may_fault (get_data p k r) (get_data p k s)
  unfolding get_data get_data_by get_memory_data
  get_data-Alike k r s b =
      let i = b.inputs in
      subst₂
        (λ t u. Alike (Begins block n) second_may_fault (get_data_by p t k r) (get_data_by p u k s))
        (sym i.memory) (sym i.memory_too)
        (subst₂ (λ x y. Alike (Begins block n) second_may_fault (get_from x k r) (get_from y k s))
          (sym i.whole) (sym i.beginning) (get_from-Alike k r s b))

  faults_of :
      (x y : Result (Reader File Client) (Unit {0})) (r : Reader File Client)
      → Alike (Begins block n) second_may_fault x y
      → x ≡ ok tt r
      → n < r.parsed
      → y ≡ fault
  faults_of x y r (excused (second_faults z)) e late = refl
  faults_of x y r (excused (both_fault why)) e late = refl
  faults_of x y r (same_ok a t u b) e late =
      let same : t ≡ r = cc in
      let i = b.inputs in absurd (omega (arith, i.inside, i.together, ap (λ v. v.parsed) same))
  faults_of x y r (same_err code t u b) e late = cc
  faults_of x y r same_fuel e late = cc

  -- If `ujo_reader_parse` succeeds on a buffer, then on a beginning of it that ends before the last
  -- byte that was read it reads behind the end.
  pub parse-cut :
      (fuel : ℕ) (r s : Reader File Client)
      → Before block n r
      → parse p fuel r ≡ ok tt s
      → n < s.parsed
      → parse p fuel (cut block n r) ≡ fault
  parse-cut fuel r s b e late =
      faults_of (parse p fuel r) (parse p fuel (cut block n r)) s
        (parse-Both p (Begins block n) second_may_fault get_data-Alike fuel r (cut block n r)
          (record {
            inputs = record {
              memory = b.memory;
              memory_too = b.memory;
              whole = b.in_block;
              beginning = refl;
              together = refl;
              inside = b.inside;
            };
            state = refl;
            state_stack = refl;
            magic_code = refl;
            version = refl;
            compression = refl;
            on_element = refl;
            on_element_data = refl;
          }))
        e late
