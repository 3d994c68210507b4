-- ===== src/Call/Reach.antt =====
-- A client of src/ujo_writer.c that goes from one position of a document to another.
use mathlib.Core.Path.{subst₂}
use libujo_c.Base.{
  ℕ, ◌+◌, ◌≤◌, ◌≡◌, refl, sym, ap, ◌∙◌, true, List, [], ◌∷◌, Option, Option-cases, none, some,
  arith, length, inl, inr,
}
use libujo_c.Base.Result.{Result, ok, then_ok}
use libujo_c.Types.{err_type_misplaced}
use libujo_c.Platform.{Platform, Grants}
use libujo_c.State.{Place, state_switch}
use libujo_c.State.Shape.{Shape}
use libujo_c.Writer.{Writer, goto}
use libujo_c.Writer.Put.{HasRoom}
use libujo_c.Writer.Entry.{Stands, write_all-Wrote, entry-allowed}
use libujo_c.Call.{Call, adds, Item, perform, allowed, event, Fits}
use libujo_c.Call.Encode.{pieces, add-IsEntry}
use libujo_c.Call.Effect.{bytes, may, FitsCall, moves}
use libujo_c.Call.Writes.{perform-Succeeds}
use libujo_c.Call.Run.{AllFit, run}

module _ {File : Type 0} (p : Platform File) where
  -- Calls that all succeed lead from one writer to another.
  pub data Reaches : Writer File → Writer File → Type 0 where
    stays : (w : Writer File) → Reaches w w
    goes :
        (c : Call) (w w1 w2 : Writer File)
        → FitsCall c
        → perform p c w ≡ ok tt w1
        → Reaches w1 w2
        → Reaches w w2

  pub Reaches-Reaches : (w w1 w2 : Writer File) → Reaches w w1 → Reaches w1 w2 → Reaches w w2
  Reaches-Reaches w w1 w2 (stays v) k = k
  Reaches-Reaches w w1 w2 (goes c u v x f e h) k = goes c u v w2 f e (Reaches-Reaches v w1 w2 h k)

  pub run-Reaches :
      (w w' : Writer File) → Reaches w w' → (cs : List Call) × AllFit cs × (run p cs w ≡ ok tt w')
  run-Reaches w w' (stays v) = ([], tt, refl)
  run-Reaches w w' (goes c u v x f e h) =
      let (cs, fits, r) = run-Reaches v x h in
      (c ∷ cs, (f, fits), then_ok (perform p c) (run p cs) e ∙ r)

  -- A writer at a position that calls reach with at most k bytes.
  pub record Led (w : Writer File) (to : Shape) (k : ℕ) : Type 0 where
    pub end : Writer File
    pub path : Reaches w end
    pub stands : Stands end to
    pub near : end.bytes ≤ w.bytes + k

  pub Led-Led :
      (w : Writer File) (at to : Shape) (j k n : ℕ)
      → j + k ≤ n
      → (l : Led w at j) → Led l.end to k
      → Led w to n
  Led-Led w at to j k n enough l m = record {
    end = m.end;
    path = Reaches-Reaches w l.end m.end l.path m.path;
    stands = m.stands;
    near = omega (arith, l.near, m.near);
  }

  pub Led-nothing : (w : Writer File) (at : Shape) (k : ℕ) → Stands w at → Led w at k
  Led-nothing w at k s = record { end = w; path = stays w; stands = s; near = omega arith }

module _ {File : Type 0} (p : Platform File) (g : Grants p) where
  -- A call whose check passes and that writes at most k bytes.
  pub one_call :
      (c : Call) (w : Writer File) (at : Shape) (k : ℕ)
      → Stands w at
      → FitsCall c
      → length (bytes p.order c) ≤ k
      → HasRoom w k
      → may c w.state ≡ true
      → (next : Shape) × (moves c at ≡ some next) × Led p w next k
  one_call c w at k s f few room h =
      let (next, q, w', e, d) = perform-Succeeds p g w at s c f (omega (arith, room, few)) h in
      (
        next,
        q,
        record {
          end = w';
          path = goes c w w' w' f e (stays w');
          stands = d.stands;
          near = omega (arith, d.count, few);
        },
      )

  -- The place that a result leaves.
  abbrev placed : Result (Writer File) (Unit {0}) → Option Place
  placed (ok u w) = some (w.state, w.state_stack)
  placed _ = none

  placed-goto :
      (f : Place → Option Place) (w : Writer File) → placed (goto f w) ≡ f (w.state, w.state_stack)
  placed-goto f w = elim (Option-cases (f (w.state, w.state_stack))) [
    | inl e ↦ rw (goto, e) refl
    | inr (at, e) ↦ rw (goto, e) refl
  ]

  -- A value that is added moves the state as `ujo_state_switch` says.
  pub add-place :
      (i : Item) (w w' : Writer File) (at : Shape)
      → Stands w at
      → Fits i
      → HasRoom w (length (bytes p.order (adds i)))
      → allowed i w.state ≡ true
      → perform p (adds i) w ≡ ok tt w'
      → state_switch p (event i) (w.state, w.state_stack) ≡ some (w'.state, w'.state_stack)
  add-place i w w' at s f room h e =
      let move = goto (state_switch p (event i)) in
      let (w1, wrote, d) = write_all-Wrote p (pieces p.order i) move w g s.valid room in
      let moved : move w1 ≡ ok tt w' =
        sym (
          ap (λ m. m w) (add-IsEntry p i f)
          ∙ entry-allowed p (allowed i) err_type_misplaced (pieces p.order i) (event i) w h
          ∙ wrote)
        ∙ e in
      subst₂ (λ a k. state_switch p (event i) (a, k) ≡ some (w'.state, w'.state_stack)) d.same_state
        d.same_stack (sym (placed-goto (state_switch p (event i)) w1) ∙ ap placed moved)
