-- ===== src/Platform.antt =====
-- What the library takes from outside its sources: the byte order that the build configures
-- (UJO_BYTE_ORDER), the C allocator and the C file functions.
use libujo_c.Base.{ℕ, zero, suc, ◌≡◌, refl, ap, List, [], ◌∷◌, Bool, true, Option, length}

pub data Endian : Type 0 where
  little big : Endian

-- `grants n` is whether the allocator serves a request of n bytes: two requests of the same size get
-- the same answer. `junk i` is the value that byte i of memory added by `realloc` happens to hold.
-- `calloc` clears what it serves.
-- `fwrite` and `fread` return what the C functions return and the stream after the call;
-- `fread` also gives the bytes that it stored.
pub record Platform (File : Type 0) : Type 0 where
  pub order : Endian
  pub grants : ℕ → Bool
  pub junk : ℕ → ℕ
  pub fopen : List ℕ → Bool → Option File
  pub fwrite : File → List ℕ → ℕ × File
  pub fread : File → ℕ → ℕ × List ℕ × File

-- The allocator serves every request.
abbrev pub Grants : {File : Type 0} → Platform File → Type 0
Grants p = (n : ℕ) → p.grants n ≡ true

-- The n bytes of new memory from index `i` on.
unfoldable pub uninitialised : {File : Type 0} → Platform File → ℕ → ℕ → List ℕ
uninitialised p i zero = []
uninitialised p i (suc n) = p.junk i ∷ uninitialised p (suc i) n

pub length-uninitialised :
    {File : Type 0} (p : Platform File) (i n : ℕ) → length (uninitialised p i n) ≡ n
unfolding uninitialised
length-uninitialised p i zero = refl
length-uninitialised p i (suc n) = ap suc (length-uninitialised p (suc i) n)
