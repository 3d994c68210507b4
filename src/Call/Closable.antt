-- ===== src/Call/Closable.antt =====
-- Every document that src/ujo_writer.c has begun can be brought to its end.
use mathlib.Core.Path.{subst}
use libujo_c.Base.{
  ℕ, zero, suc, ◌+◌, ◌*◌, ◌≤◌, ◌≡◌, refl, ap, ◌∙◌, true, false, List, [], ◌∷◌, arith, length,
}
use libujo_c.Base.Result.{ok}
use libujo_c.Types.{type_list}
use libujo_c.Platform.{Platform, Grants}
use libujo_c.State.{DocState, root, list, closed, same_state, enumerator, closing, allow_container}
use libujo_c.State.Shape.{Shape, leave, after, after_container, enter, is_outer, fits}
use libujo_c.Words.Bytes.{length-memory_bytes}
use libujo_c.Writer.{Writer}
use libujo_c.Writer.Put.{HasRoom}
use libujo_c.Writer.Entry.{Stands}
use libujo_c.Call.{Call, list_opens, list_closes}
use libujo_c.Call.Effect.{bytes}
use libujo_c.Call.Run.{AllFit, run}
use libujo_c.Call.Reach.{Led, Led-Led, Led-nothing, one_call, run-Reaches}
use libujo_c.Call.Levels.{level, one_byte_each, level_ends}

module _ {File : Type 0} (p : Platform File) (g : Grants p) where
  -- The end of the document.
  abbrev Ends : Writer File → ℕ → Type 0
  Ends w k = (to : Shape) × (to.0 ≡ closed) × Led p w to k

  -- A document without a value gets an empty list.
  root_finishes : (w : Writer File) → Stands w (root, []) → HasRoom w 2 → Ends w 2
  unfolding leave closing after after_container enter allow_container same_state enumerator
  root_finishes w h room =
      let one : length (bytes p.order list_opens) ≤ 1 =
        omega (arith, length-memory_bytes p.order 1 type_list) in
      let (next, q, l) =
        one_call p g list_opens w (root, []) 1 h tt one (omega (arith, room))
          (ap allow_container h.here.current) in
      let same : next ≡ (list, root ∷ []) = cc in
      let l' : Led p w (list, root ∷ []) 1 = subst (λ at. Led p w at 1) same l in
      let (to, q', m) =
        one_call p g list_closes l'.end (list, root ∷ []) 1 l'.stands tt (one_byte_each p g)
          (omega (arith, room, l'.near)) (ap (λ s. same_state s list) l'.stands.here.current) in
      let over : to ≡ (closed, []) = cc in
      (to, ap (λ at. at.0) over, Led-Led p w (list, root ∷ []) to 1 1 2 (omega arith) l' m)

  -- From level to level.
  all_finishes :
      (n : ℕ) (s : DocState) (w : Writer File) (above : List DocState)
      → length above ≤ n
      → Stands w (s, above)
      → HasRoom w (level * (n + 1))
      → Ends w (level * (n + 1))
  unfolding is_outer fits
  all_finishes n closed w above few h room =
      ((closed, above), refl, Led-nothing p w (closed, above) (level * (n + 1)) h)
  all_finishes n root w [] few h room =
      let (to, over, l) = root_finishes w h (omega (arith, room)) in
      (
        to,
        over,
        Led-Led p w to to 2 0 (level * (n + 1)) (omega arith) l (Led-nothing p l.end to 0 l.stands),
      )
  all_finishes n root w (t ∷ above) few h room = let inside : false ≡ true = h.nested.0 in cc
  all_finishes zero s w above few h room =
      let (next, less, l) = level_ends p g s w above h refl (omega (arith, room)) in
      absurd (omega (arith, less, few))
  all_finishes (suc n) s w above few h room =
      let (next, less, l) = level_ends p g s w above h refl (omega (arith, room)) in
      let (to, over, m) =
        all_finishes n next.0 l.end next.1 (omega (arith, less, few)) l.stands
          (omega (arith, room, l.near)) in
      (
        to,
        over,
        Led-Led p w next to level (level * (n + 1)) (level * (suc n + 1)) (omega arith) l m,
      )

  -- Every writer into memory that stands at a position of a document can be brought to its end, on a
  -- platform whose allocator serves every request: some calls with arguments of their C types all
  -- succeed and close the document, and they write at most 2 ^ 32 + 16 bytes for the current state and
  -- for each one that encloses it, for which there has to be room within a size_t.
  pub document-closable :
      (w : Writer File) (at : Shape)
      → Stands w at
      → HasRoom w (level * (length at.1 + 1))
      → (cs : List Call) × AllFit cs
        × (w' : Writer File) × (run p cs w ≡ ok tt w')
        × (w'.state.state ≡ closed)
        × (w'.bytes ≤ w.bytes + level * (length at.1 + 1))
  document-closable w at h room =
      let (to, over, l) = all_finishes (length at.1) at.0 w at.1 (omega arith) h room in
      let (cs, fits, r) = run-Reaches p w l.end l.path in
      (cs, fits, l.end, r, l.stands.here.current ∙ over, l.near)
