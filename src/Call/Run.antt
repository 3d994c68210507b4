-- ===== src/Call/Run.antt =====
-- A client of src/ujo_writer.c that makes one call after the other and stops at the first error.
use libujo_c.Base.{
  true, ℕ, ◌≡◌, refl, sym, ap, ◌∙◌, false, List, [], ◌∷◌, ◌++◌, arith, length, length-append,
  append_assoc, append-nil, Bool-cases, inl, inr, some,
}
use libujo_c.Base.Result.{M, ok, err, and_then, ◌>>◌, then_ok}
use libujo_c.Platform.{Platform, Endian, Grants}
use libujo_c.State.Shape.{Shape}
use libujo_c.Writer.{Writer}
use libujo_c.Writer.Put.{contents, HasRoom}
use libujo_c.Writer.Entry.{Stands, Done}
use libujo_c.Call.{Call, perform}
use libujo_c.Call.Effect.{permits, may-permits, bytes, may, refusal, FitsCall, moves}
use libujo_c.Call.Writes.{perform-stopped, perform-Succeeds}

abbrev pub all_bytes : Endian → List Call → List ℕ
all_bytes e [] = []
all_bytes e (c ∷ cs) = bytes e c ++ all_bytes e cs

abbrev pub AllFit : List Call → Type 0
AllFit [] = Unit {0}
AllFit (c ∷ cs) = FitsCall c × AllFit cs

-- Each call is permitted where it is made, and the calls lead from one position to another.
abbrev pub PathOf : List Call → Shape → Shape → Type 0
PathOf [] at to = at ≡ to
PathOf (c ∷ cs) at to =
    (permits c at.0 ≡ true) × (next : Shape) × (moves c at ≡ some next) × PathOf cs next to

abbrev pub run : {File : Type 0} → Platform File → List Call → M (Writer File) (Unit {0})
run p [] w = ok tt w
run p (c ∷ cs) w = (perform p c >> run p cs) w

-- All calls succeeded, or those before a refused one did.
pub data Ran {File : Type 0} (p : Platform File) (cs : List Call) (w : Writer File) (at : Shape)
    : Type 0 where
  ended :
      (to : Shape) (w' : Writer File)
      → run p cs w ≡ ok tt w'
      → PathOf cs at to
      → Done w (all_bytes p.order cs) to w'
      → Ran p cs w at
  stopped :
      (before : List Call) (c : Call) (rest : List Call) (to : Shape) (w' : Writer File)
      → cs ≡ before ++ c ∷ rest
      → run p cs w ≡ err (refusal c) w'
      → may c w'.state ≡ false
      → PathOf before at to
      → Done w (all_bytes p.order before) to w'
      → Ran p cs w at

Done-nothing : {File : Type 0} (w : Writer File) (at : Shape) → Stands w at → Done w [] at w
Done-nothing w at s = record {
  stands = s;
  written = sym (append-nil (contents w));
  count = omega arith;
}

Done-Done :
    {File : Type 0} (w w' w'' : Writer File) (xs ys : List ℕ) (at to : Shape)
    → Done w xs at w'
    → Done w' ys to w''
    → Done w (xs ++ ys) to w''
Done-Done w w' w'' xs ys at to d d' = record {
  stands = d'.stands;
  written = d'.written ∙ ap (λ z. z ++ ys) d.written ∙ append_assoc (contents w) xs ys;
  count = omega (arith, d.count, d'.count, length-append xs ys);
}

here_permits :
    {File : Type 0} (c : Call) (w : Writer File) (at : Shape)
    → Stands w at
    → may c w.state ≡ true
    → permits c at.0 ≡ true
here_permits c w at s h = ap (permits c) (sym s.here.current) ∙ may-permits c w.state h

module _ {File : Type 0} (p : Platform File) (g : Grants p) where
  after_first :
      (c : Call) (cs : List Call) (w w1 : Writer File) (at next : Shape)
      → permits c at.0 ≡ true
      → moves c at ≡ some next
      → perform p c w ≡ ok tt w1
      → Done w (bytes p.order c) next w1
      → Ran p cs w1 next
      → Ran p (c ∷ cs) w at
  after_first c cs w w1 at next l q r d (ended to w' r' path d') =
      ended to w' (then_ok (perform p c) (run p cs) r ∙ r') (l, next, q, path)
        (Done-Done w w1 w' (bytes p.order c) (all_bytes p.order cs) next to d d')
  after_first c cs w w1 at next l q r d (stopped before b rest to w' split r' refuses path d') =
      stopped (c ∷ before) b rest to w' (ap (λ z. c ∷ z) split)
        (then_ok (perform p c) (run p cs) r ∙ r') refuses (l, next, q, path)
        (Done-Done w w1 w' (bytes p.order c) (all_bytes p.order before) next to d d')

  -- From a memory writer that stands at a position of a document, with an allocator that serves
  -- every request, calls with arguments of their C types and bytes that leave the size within a
  -- size_t either all succeed and write their bytes one behind the other, or stop at a call whose
  -- check of the place fails: with its error code, and with the bytes of the calls before it. No
  -- NULL pointer is followed on the way.
  pub run-Ran :
      (cs : List Call) (w : Writer File) (at : Shape)
      → AllFit cs
      → Stands w at
      → HasRoom w (length (all_bytes p.order cs))
      → Ran p cs w at
  run-Ran [] w at f s room = ended at w refl refl (Done-nothing w at s)
  run-Ran (c ∷ cs) w at f s room =
      let long = length-append (bytes p.order c) (all_bytes p.order cs) in
      elim (Bool-cases (may c w.state)) [
        | inl allows ↦
            let (next, q, w1, r, d) =
              perform-Succeeds p g w at s c f.0 (omega (arith, room, long)) allows in
            after_first c cs w w1 at next (here_permits c w at s allows) q r d
              (run-Ran cs w1 next f.1 d.stands (omega (arith, room, long, d.count)))
        | inr refuses ↦
            stopped [] c cs at w refl
              (ap (λ r. and_then r (λ _. run p cs)) (perform-stopped p w c f.0 refuses)) refuses
              refl (Done-nothing w at s)
      ]
