-- ===== src/Writer/Entry.antt =====
-- The common course of the functions of src/ujo_writer.c that add a value: a check of the place, the
-- bytes in the pieces in which they are put, and the move to the next place.
use mathlib.Core.Path.{subst, subst₂}
use libujo_c.Base.{
  ℕ, ◌+◌, ◌≡◌, refl, sym, ap, ◌∙◌, Bool, true, false, List, [], ◌∷◌, ◌++◌, Option, some, arith,
  length, length-append, append_assoc, append-nil,
}
use libujo_c.Base.Result.{M, ok, err, and_then, ◌>>◌}
use libujo_c.Platform.{Platform, Grants}
use libujo_c.Stack.{Stack}
use libujo_c.State.{DocEvent, State, Place, state_switch}
use libujo_c.State.Shape.{Shape, IsNested, after, after-StaysNested}
use libujo_c.State.Refine.{At, Follows, state_switch-At}
use libujo_c.Writer.{Writer, put, goto, require}
use libujo_c.Writer.Put.{contents, IsValid, HasRoom, Wrote, put-Wrote}

abbrev pub joined : List (List ℕ) → List ℕ
joined [] = []
joined (c ∷ cs) = c ++ joined cs

-- A writer into memory that stands at a position of a document.
pub record Stands {File : Type 0} (w : Writer File) (at : Shape) : Type 0 where
  pub valid : IsValid w
  pub here : At true (w.state, w.state_stack) at
  pub nested : IsNested at

-- `w'` is the writer after a call that wrote `xs` and moved to `at`.
pub record Done {File : Type 0} (w : Writer File) (xs : List ℕ) (at : Shape) (w' : Writer File)
    : Type 0 where
  pub stands : Stands w' at
  pub written : contents w' ≡ contents w ++ xs
  pub count : w'.bytes ≡ w.bytes + length xs

pub At-same :
    {s s' : State} {k k' : Option (Stack State)} {at : Shape}
    → s' ≡ s
    → k' ≡ k
    → At true (s, k) at
    → At true (s', k') at
At-same {at} e f h = subst₂ (λ x y. At true (x, y) at) (sym e) (sym f) h

module _ {File : Type 0} where
  pub goto_lem :
      (f : Place → Option Place) (w : Writer File) (at : Place)
      → f (w.state, w.state_stack) ≡ some at
      → goto f w ≡ ok tt (record w { state = at.0; state_stack = at.1 })
  goto_lem f w at e = rw (goto, e)

  -- Moving changes nothing of what is written.
  pub moved-Done :
      (w w' : Writer File) (xs : List ℕ) (at : Place) (shape : Shape)
      → Wrote w xs w'
      → At true at shape
      → IsNested shape
      → Done w xs shape (record w' { state = at.0; state_stack = at.1 })
  moved-Done w w' xs at shape d h n = record {
    stands = record {
      valid = record {
        memory = d.valid.memory;
        sized = d.valid.sized;
        within = d.valid.within;
        lean = d.valid.lean;
      };
      here = h;
      nested = n;
    };
    written = d.written;
    count = d.count;
  }

module _ {File : Type 0} (p : Platform File) where
  unfoldable pub write_all : List (List ℕ) → M (Writer File) (Unit {0}) → M (Writer File) (Unit {0})
  write_all [] k = k
  write_all (c ∷ cs) k = put p c >> write_all cs k

  unfoldable pub entry : (State → Bool) → ℕ → List (List ℕ) → DocEvent → M (Writer File) (Unit {0})
  unfolding write_all
  entry test code chunks e = do require test code; write_all chunks (goto (state_switch p e))

  pub Wrote-nothing : (w : Writer File) → IsValid w → Wrote w [] w
  Wrote-nothing w v = record {
    valid = v;
    written = sym (append-nil (contents w));
    count = omega arith;
    same_state = refl;
    same_stack = refl;
  }

  pub Wrote-Wrote :
      (w w' w'' : Writer File) (xs ys : List ℕ)
      → Wrote w xs w'
      → Wrote w' ys w''
      → Wrote w (xs ++ ys) w''
  Wrote-Wrote w w' w'' xs ys d d' = record {
    valid = d'.valid;
    written = d'.written ∙ ap (λ z. z ++ ys) d.written ∙ append_assoc (contents w) xs ys;
    count = omega (arith, d.count, d'.count, length-append xs ys);
    same_state = d'.same_state ∙ d.same_state;
    same_stack = d'.same_stack ∙ d.same_stack;
  }

  -- Pieces put one after the other are written one behind the other.
  pub write_all-Wrote :
      (cs : List (List ℕ)) (k : M (Writer File) (Unit {0})) (w : Writer File)
      → Grants p
      → IsValid w
      → HasRoom w (length (joined cs))
      → (w' : Writer File) × (write_all cs k w ≡ k w') × Wrote w (joined cs) w'
  unfolding write_all
  write_all-Wrote [] k w g v h = (w, refl, Wrote-nothing w v)
  write_all-Wrote (c ∷ cs) k w g v h =
      let long : length (c ++ joined cs) ≡ length c + length (joined cs) =
        length-append c (joined cs) in
      let (w', e, d) = put-Wrote p w c g v (omega (arith, long)) in
      let (w'', e', d') = write_all-Wrote cs k w' g d.valid (omega (arith, long, d.count)) in
      (
        w'',
        ap (λ r. and_then r (λ _. write_all cs k)) e ∙ e',
        Wrote-Wrote w w' w'' c (joined cs) d d',
      )

  -- Where the check of the place fails, the writer is left as it was.
  pub entry-refused :
      (test : State → Bool) (code : ℕ) (cs : List (List ℕ)) (e : DocEvent) (w : Writer File)
      → test w.state ≡ false
      → entry test code cs e w ≡ err code w
  unfolding entry
  entry-refused test code cs e w h = rw h

  pub entry-allowed :
      (test : State → Bool) (code : ℕ) (cs : List (List ℕ)) (e : DocEvent) (w : Writer File)
      → test w.state ≡ true
      → entry test code cs e w ≡ write_all cs (goto (state_switch p e)) w
  unfolding entry
  entry-allowed test code cs e w h = rw h

  -- Where it holds, all bytes are written, and the place is the one after the event.
  pub entry-Done :
      (test : State → Bool) (code : ℕ) (cs : List (List ℕ)) (e : DocEvent) (w : Writer File)
      (at : Shape)
      → Grants p
      → Stands w at
      → HasRoom w (length (joined cs))
      → test w.state ≡ true
      → (next : Shape) × (after e at ≡ some next)
        × (w' : Writer File) × (entry test code cs e w ≡ ok tt w')
        × Done w (joined cs) next w'
  entry-Done test code cs e w at g s h t =
      let (next, stays, nested) = after-StaysNested e at s.nested in
      let (w', wrote, d) = write_all-Wrote cs (goto (state_switch p e)) w g s.valid h in
      let moves : Follows true (state_switch p e (w'.state, w'.state_stack)) (after e at) =
        state_switch-At p g e (w'.state, w'.state_stack) at
          (At-same d.same_state d.same_stack s.here) in
      let (place, moved, here) =
        subst (λ r. Follows true (state_switch p e (w'.state, w'.state_stack)) r) stays moves in
      (
        next,
        stays,
        record w' { state = place.0; state_stack = place.1 },
        entry-allowed test code cs e w t ∙ wrote ∙ goto_lem (state_switch p e) w' place moved,
        moved-Done w w' (joined cs) place next d here nested,
      )
