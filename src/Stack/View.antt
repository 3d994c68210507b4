-- ===== src/Stack/View.antt =====
-- What a stack of src/ujo_stack.c holds: a list, the item pushed last in front.
use libujo_c.Base.{
  Bool, ℕ, zero, suc, ◌+◌, ◌≤◌, ◌<◌, ◌≡◌, refl, List, [], ◌∷◌, ◌++◌, map, Option, none, some, arith,
  length, length-append, get_or, set,
}
use libujo_c.Stack.{Stack, slot}

module _ {ℓ} {A : Type ℓ} where
  abbrev pub capacity : Option (List (Option A)) → ℕ
  capacity none = 0
  capacity (some slots) = length slots

  -- The first n slots, the last of them in front.
  abbrev pub used : Option (List (Option A)) → ℕ → List (Option A)
  used slots zero = []
  used slots (suc n) = slot slots n ∷ used slots n

  -- The array is as long as `size` says, holds `items` pointers of `xs`, and none of them is NULL;
  -- `d` is whether a destroy function was given.
  pub record Contents (d : Bool) (s : Stack A) (xs : List A) : Type ℓ where
    pub sized : capacity s.stack ≡ s.size
    pub within : s.items ≤ s.size
    pub destroys : s.destroy ≡ d
    pub view : used s.stack s.items ≡ map some xs

  -- `k` points to a stack that holds `xs`.
  pub data Holds (d : Bool) (k : Option (Stack A)) (xs : List A) : Type ℓ where
    holds : (s : Stack A) → k ≡ some s → Contents d s xs → Holds d k xs

  pub slot-set_self :
      (slots : List (Option A)) (i : ℕ) (a : A)
      → i < length slots
      → get_or (set slots i (some a)) i none ≡ some a
  slot-set_self [] i a h = absurd (omega arith)
  slot-set_self (x ∷ xs) zero a h = refl
  slot-set_self (x ∷ xs) (suc i) a h = slot-set_self xs i a (omega arith)

  slot-set_below :
      (slots : List (Option A)) (i j : ℕ) (v : Option A)
      → j < i
      → get_or (set slots i v) j none ≡ get_or slots j none
  slot-set_below [] i j v h = refl
  slot-set_below (x ∷ xs) zero j v h = absurd (omega arith)
  slot-set_below (x ∷ xs) (suc i) zero v h = refl
  slot-set_below (x ∷ xs) (suc i) (suc j) v h = slot-set_below xs i j v (omega arith)

  slot-append :
      (slots more : List (Option A)) (i : ℕ)
      → i < length slots
      → get_or (slots ++ more) i none ≡ get_or slots i none
  slot-append [] more i h = absurd (omega arith)
  slot-append (x ∷ xs) more zero h = refl
  slot-append (x ∷ xs) more (suc i) h = slot-append xs more i (omega arith)

  pub used-set :
      (slots : List (Option A)) (i n : ℕ) (v : Option A)
      → n ≤ i
      → used (some (set slots i v)) n ≡ used (some slots) n
  unfolding slot
  used-set slots i zero v h = refl
  used-set slots i (suc n) v h =
      rw (slot-set_below slots i n v (omega arith), used-set slots i n v (omega arith))

  pub used-append :
      (slots more : List (Option A)) (n : ℕ)
      → n ≤ length slots
      → used (some (slots ++ more)) n ≡ used (some slots) n
  unfolding slot
  used-append slots more zero h = refl
  used-append slots more (suc n) h =
      rw (slot-append slots more n (omega arith), used-append slots more n (omega arith))

  -- The slots after `enlarge`.
  abbrev pub grown : Option (List (Option A)) → List (Option A)
  grown none = none ∷ []
  grown (some slots) = slots ++ none ∷ []

  pub capacity-grown :
      (slots : Option (List (Option A))) → length (grown slots) ≡ capacity slots + 1
  capacity-grown none = omega arith
  capacity-grown (some slots) = length-append slots (none ∷ [])

  pub used-grown :
      (slots : Option (List (Option A))) (n : ℕ)
      → n ≤ capacity slots
      → used (some (grown slots)) n ≡ used slots n
  used-grown none zero h = refl
  used-grown none (suc n) h = absurd (omega arith)
  used-grown (some slots) n h = used-append slots (none ∷ []) n h
