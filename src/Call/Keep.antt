-- ===== src/Call/Keep.antt =====
-- Values that a client of src/ujo_writer.c adds to a list or to the rows of a table in memory, where
-- the allocator may refuse a larger buffer.
use mathlib.Core.Path.{subst}
use libujo_c.Base.{
  ℕ, ◌+◌, ◌<◌, ◌≤◌, ◌*◌, ◌⊎◌, ◌≡◌, refl, sym, ap, ◌∙◌, Bool, true, false, List, [], ◌∷◌, ◌++◌, map,
  Option, some, arith, inl, inr, length, length-append, append_assoc, if◌then◌else◌,
}
use libujo_c.Base.Result.{Result, ok, err, and_then}
use libujo_c.Types.{err_type_misplaced, err_allocation}
use libujo_c.Platform.{Platform}
use libujo_c.Stack.{Stack}
use libujo_c.State.{
  DocState, State, list, table_values, DocEvent, atomic_found, string_found, allow_atomic,
  allow_string, state_switch, atomic_switch, string_switch, next_column,
}
use libujo_c.Writer.{Writer, goto}
use libujo_c.Writer.Put.{contents, IsValid, HasRoom, Wrote}
use libujo_c.Writer.Entry.{entry-allowed, goto_lem, write_all, Wrote-nothing}
use libujo_c.Writer.Refuse.{write_all-or_Cut}
use libujo_c.Call.{adds, Item, add, allowed, event, Fits, is_string}
use libujo_c.Call.Encode.{pieces, add-IsEntry}
use libujo_c.Call.Effect.{bytes}
use libujo_c.Call.Run.{AllFit, all_bytes, run}

-- The places where values follow each other without a change of the stack.
abbrev pub IsFlat : DocState → Type 0
IsFlat s = (s ≡ list) ⊎ (s ≡ table_values)

-- `w'` is `w` with `xs` written, in the same container.
pub record Added {File : Type 0} (w : Writer File) (xs : List ℕ) (w' : Writer File) : Type 0 where
  pub valid : IsValid w'
  pub written : contents w' ≡ contents w ++ xs
  pub count : w'.bytes ≡ w.bytes + length xs
  pub same_place : w'.state.state ≡ w.state.state
  pub same_stack : w'.state_stack ≡ w.state_stack

-- All of `xs` is written, or the call ends with the error of an allocation: then a beginning of it is
-- written, the buffer lacks the room for the rest, and the allocator refuses a larger one that is at
-- most twice all of it and 4096 bytes.
pub data Fills {File : Type 0} (p : Platform File) (w : Writer File) (xs : List ℕ)
    : Result (Writer File) (Unit {0}) → Type 0 where
  filled : (w' : Writer File) → Added w xs w' → Fills p w xs (ok tt w')
  refused :
      (w' : Writer File) (before rest : List ℕ)
      → xs ≡ before ++ rest
      → Added w before w'
      → w'.buffersize < w'.bytes + length rest
      → (size : ℕ) → w'.buffersize < size
      → size ≤ 2 * (w'.bytes + length rest) + 4096
      → p.grants size ≡ false
      → Fills p w xs (err err_allocation w')

flat_permits :
    (b : Bool) (s : DocState) → IsFlat s → (if b then allow_string s else allow_atomic s) ≡ true
unfolding allow_string allow_atomic
flat_permits true s (inl e) = ap allow_string e
flat_permits true s (inr e) = ap allow_string e
flat_permits false s (inl e) = ap allow_atomic e
flat_permits false s (inr e) = ap allow_atomic e

module _ {File : Type 0} (p : Platform File) where
  -- A value moves to the next place of the same container.
  abbrev StaysIn : State → Option (Stack State) → DocEvent → Type 0
  StaysIn s k e = (s' : State) × (state_switch p e (s, k) ≡ some (s', k)) × (s'.state ≡ s.state)

  list_switch :
      (s : State) (k : Option (Stack State)) (b : Bool)
      → s.state ≡ list
      → StaysIn s k (if b then string_found else atomic_found)
  unfolding state_switch atomic_switch string_switch
  list_switch s k true e = (s, ap (λ t. string_switch p t (s, k)) e, refl)
  list_switch s k false e = (s, ap (λ t. atomic_switch p t (s, k)) e, refl)

  row_switch :
      (s : State) (k : Option (Stack State)) (b : Bool)
      → s.state ≡ table_values
      → StaysIn s k (if b then string_found else atomic_found)
  unfolding state_switch atomic_switch string_switch next_column
  row_switch s k true e = (next_column s, ap (λ t. string_switch p t (s, k)) e, refl)
  row_switch s k false e = (next_column s, ap (λ t. atomic_switch p t (s, k)) e, refl)

  flat_switch :
      (i : Item) (s : State) (k : Option (Stack State)) → IsFlat s.state → StaysIn s k (event i)
  flat_switch i s k (inl e) = list_switch s k (is_string i) e
  flat_switch i s k (inr e) = row_switch s k (is_string i) e

  -- What was put becomes part of the document with the move to the next place.
  moved-Added :
      (w w1 : Writer File) (xs : List ℕ) (s : State)
      → Wrote w xs w1
      → s.state ≡ w.state.state
      → Added w xs (record w1 { state = s; state_stack = w1.state_stack })
  moved-Added w w1 xs s d same = record {
    valid = record {
      memory = d.valid.memory;
      sized = d.valid.sized;
      within = d.valid.within;
      lean = d.valid.lean;
    };
    written = d.written;
    count = d.count;
    same_place = same;
    same_stack = d.same_stack;
  }

  Wrote-Added : (w w1 : Writer File) (xs : List ℕ) → Wrote w xs w1 → Added w xs w1
  Wrote-Added w w1 xs d = record {
    valid = d.valid;
    written = d.written;
    count = d.count;
    same_place = ap (λ s. s.state) d.same_state;
    same_stack = d.same_stack;
  }

  add-Fills :
      (i : Item) (w : Writer File)
      → Fits i
      → IsValid w
      → IsFlat w.state.state
      → HasRoom w (length (bytes p.order (adds i)))
      → Fills p w (bytes p.order (adds i)) (add p i w)
  add-Fills i w f v flat room =
      let k = goto (state_switch p (event i)) in
      let starts : add p i w ≡ write_all p (pieces p.order i) k w =
        ap (λ m. m w) (add-IsEntry p i f)
        ∙ entry-allowed p (allowed i) err_type_misplaced (pieces p.order i) (event i) w
            (flat_permits (is_string i) w.state.state flat) in
      elim (write_all-or_Cut p (pieces p.order i) k w v room) [
        | inl (w1, e, d) ↦
            let (s, moved, same) =
              flat_switch i w1.state w1.state_stack
                (subst (λ t. IsFlat t.state) (sym d.same_state) flat) in
            subst (Fills p w (bytes p.order (adds i)))
              (sym (starts ∙ e ∙ goto_lem (state_switch p (event i)) w1 (s, w1.state_stack) moved))
              (filled _ (
                moved-Added w w1 (bytes p.order (adds i)) s d
                  (same ∙ ap (λ t. t.state) d.same_state)))
        | inr (w1, e, cut) ↦ subst (Fills p w (bytes p.order (adds i))) (sym (starts ∙ e)) (
            refused w1 cut.before cut.rest cut.split (Wrote-Added w w1 cut.before cut.wrote)
              cut.lacks cut.size cut.larger cut.bounded cut.refused)
      ]

  Added-Added :
      (w w1 w2 : Writer File) (xs ys : List ℕ)
      → Added w xs w1
      → Added w1 ys w2
      → Added w (xs ++ ys) w2
  Added-Added w w1 w2 xs ys d d' = record {
    valid = d'.valid;
    written = d'.written ∙ ap (λ z. z ++ ys) d.written ∙ append_assoc (contents w) xs ys;
    count = omega (arith, d.count, d'.count, length-append xs ys);
    same_place = d'.same_place ∙ d.same_place;
    same_stack = d'.same_stack ∙ d.same_stack;
  }

  -- The calls after one that wrote `xs`.
  Fills-behind :
      (w w1 : Writer File) (xs ys : List ℕ) (r : Result (Writer File) (Unit {0}))
      → Added w xs w1
      → Fills p w1 ys r
      → Fills p w (xs ++ ys) r
  Fills-behind w w1 xs ys r d (filled w2 d2) = filled w2 (Added-Added w w1 w2 xs ys d d2)
  Fills-behind w w1 xs ys r d (refused w2 before rest split d2 lacks size larger bounded no_block) =
      refused w2 (xs ++ before) rest (ap (λ zs. xs ++ zs) split ∙ sym (append_assoc xs before rest))
        (Added-Added w w1 w2 xs before d d2) lacks size larger bounded no_block

  -- What is still to write after an allocation that was refused.
  Fills-more :
      (w : Writer File) (xs ys : List ℕ) (w' : Writer File) (before rest : List ℕ)
      → xs ≡ before ++ rest
      → Added w before w'
      → w'.buffersize < w'.bytes + length rest
      → (size : ℕ) → w'.buffersize < size
      → size ≤ 2 * (w'.bytes + length rest) + 4096
      → p.grants size ≡ false
      → Fills p w (xs ++ ys) (err err_allocation w')
  Fills-more w xs ys w' before rest split d lacks size larger bounded no_block =
      refused w' before (rest ++ ys) (ap (λ zs. zs ++ ys) split ∙ append_assoc before rest ys) d
        (omega (arith, lacks, length-append rest ys)) size larger
        (omega (arith, bounded, length-append rest ys)) no_block

  then_run :
      (i : Item) (is : List Item) (w : Writer File) (r : Result (Writer File) (Unit {0}))
      → Fills p w (bytes p.order (adds i)) r
      → ((w1 : Writer File)
          → Added w (bytes p.order (adds i)) w1
          → Fills p w1 (all_bytes p.order (map adds is)) (run p (map adds is) w1))
      → Fills p w (all_bytes p.order (map adds (i ∷ is))) (and_then r (λ _. run p (map adds is)))
  then_run i is w r (filled w1 d) go =
      Fills-behind w w1 (bytes p.order (adds i)) (all_bytes p.order (map adds is)) _ d (go w1 d)
  then_run i is w r (refused w1 before rest split d lacks size larger bounded no_block) go =
      Fills-more w (bytes p.order (adds i)) (all_bytes p.order (map adds is)) w1 before rest split d
        lacks size larger bounded no_block

  -- Values added one after the other to a list, or to the rows of a table, by a valid writer into
  -- memory, with arguments of their C types and sizes within a size_t: either all of them succeed
  -- and just their bytes are written, or one fails with the error code of an allocation. Then a
  -- beginning of these bytes is written, the buffer lacks the room for the rest, and the allocator
  -- refuses a larger block, of at most twice the size of the whole and 4096 bytes. In both cases
  -- the writer stays valid, in the same container, and what was written before is kept. The
  -- allocator answers each size in any fixed way.
  pub run-Fills :
      (is : List Item) (w : Writer File)
      → AllFit (map adds is)
      → IsValid w
      → IsFlat w.state.state
      → HasRoom w (length (all_bytes p.order (map adds is)))
      → Fills p w (all_bytes p.order (map adds is)) (run p (map adds is) w)
  run-Fills [] w f v flat room = filled w (Wrote-Added w w [] (Wrote-nothing p w v))
  run-Fills (i ∷ is) w f v flat room =
      let long = length-append (bytes p.order (adds i)) (all_bytes p.order (map adds is)) in
      then_run i is w (add p i w) (add-Fills i w f.0 v flat (omega (arith, room, long))) (λ w1 d.
        run-Fills is w1 f.1 d.valid (subst IsFlat (sym d.same_place) flat)
          (omega (arith, room, long, d.count)))
