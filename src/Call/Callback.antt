-- ===== src/Call/Callback.antt =====
-- `ujo_reader_parse` of src/ujo_reader.c with a callback that may return an error code.
use mathlib.Core.Path.{subst}
use libujo_c.Base.{
  Bool, ℕ, zero, suc, ◌≤◌, ◌≡◌, refl, sym, ap, ◌∙◌, true, false, List, [], ◌∷◌, ◌++◌, map, Option,
  some, arith, length, ◌==◌, if◌then◌else◌,
}
use libujo_c.Base.Result.{M, Result, pure, fail, ok, err, and_then, ◌>>=◌}
use libujo_c.Platform.{Platform, Grants}
use libujo_c.State.{root, closed}
use libujo_c.State.Same.{is_closed}
use libujo_c.State.Shape.{Shape}
use libujo_c.Element.{Element}
use libujo_c.Writer.{Writer, new_memory_writer}
use libujo_c.Reader.{Reader, new_memory_reader}
use libujo_c.Reader.Next.{get_next, get_first, notify, notify_by, parse_loop, parse}
use libujo_c.Reader.Input.{Reads}
use libujo_c.Call.{Call, seen}
use libujo_c.Call.Run.{AllFit, all_bytes, PathOf, run}
use libujo_c.Call.Document.{header_bytes, IsSmall}
use libujo_c.Call.Scan.{get_next-seen}
use libujo_c.Call.Header.{parse_header-Parses}
use libujo_c.Call.Parse.{Callback}
use libujo_c.Call.RoundTrip.{
  read_document, idle, loaded, loads, loaded-Reads, new_memory_reader-idle, run-Document,
}

-- The callback gets the elements one after the other, up to the first for which it returns an
-- error code: that code, or 0, and the client's data.
unfoldable pub deliver :
    {Client : Type 0} → Callback Client → List Element → Option Client → ℕ × Option Client
deliver f [] d = (0, d)
deliver f (v ∷ vs) d = let rest = deliver f vs (f v d).1 in if (f v d).0 == 0 then rest else f v d

-- What a call returns with the code: success for 0.
abbrev pub returned_if : {S : Type 0} → Bool → ℕ → S → Result S (Unit {0})
returned_if b code s = if b then ok tt s else err code s

abbrev pub returned : {S : Type 0} → ℕ → S → Result S (Unit {0})
returned code s = returned_if (code == 0) code s

module _ {File Client : Type 0} (p : Platform File) (g : Grants p) (f : Callback Client) where
  abbrev told : Bool → ℕ → M (Reader File Client) (Unit {0})
  told b code = if b then pure tt else fail code

  as_returned :
      (b : Bool) (code : ℕ) (s : Reader File Client) → told b code s ≡ returned_if b code s
  as_returned true code s = refl
  as_returned false code s = refl

  -- The call returns the code of the delivery, and leaves its data.
  abbrev pub Answers : Result (Reader File Client) (Unit {0}) → ℕ × Option Client → Type 0
  Answers x (code, d) =
      (r' : Reader File Client) × (x ≡ returned code r') × (r'.on_element_data ≡ d)

  -- The reader after the callback gave a code and the client's data.
  abbrev answered : Reader File Client → ℕ × Option Client → Result (Reader File Client) (Unit {0})
  answered r (code, e) = told (code == 0) code (record r { on_element_data = e })

  notified :
      (v : Element) (d : Option Client) (r : Reader File Client) (rest : List ℕ) (at : Shape)
      → Reads (some f) d r rest at
      → notify p v r ≡ returned (f v d).0 (record r { on_element_data = (f v d).1 })
  unfolding notify notify_by
  notified v d r rest at h =
      ap (λ t. notify_by p t v r) h.handler
      ∙ ap (λ t. answered r (f v t)) h.data_is
      ∙ as_returned ((f v d).0 == 0) (f v d).0 (record r { on_element_data = (f v d).1 })

  with_data :
      {d : Option Client} (e : Option Client) (r : Reader File Client) (rest : List ℕ) (at : Shape)
      → Reads (some f) d r rest at
      → Reads (some f) e (record r { on_element_data = e }) rest at
  with_data e r rest at h = record {
    memory = h.memory;
    block = h.block;
    in_block = h.in_block;
    ahead = h.ahead;
    within = h.within;
    small = h.small;
    here = h.here;
    handler = h.handler;
    data_is = refl;
  }

  -- The code of the callback ends the loop, or is 0 and lets it go on.
  answer_first :
      (b : Bool) (code : ℕ) (r2 : Reader File Client) (k : M (Reader File Client) (Unit {0}))
      (rest : ℕ × Option Client)
      → (code == 0) ≡ b
      → Answers (k r2) rest
      → Answers
          (and_then (returned_if b code r2) (λ _. k))
          (if b then rest else (code, r2.on_element_data))
  answer_first true code r2 k rest e h = h
  answer_first false code r2 k rest e h = (r2, ap (λ t. returned_if t code r2) (sym e), refl)

  parse_loop-Answers :
      (cs : List Call) (fuel : ℕ) (d : Option Client) (r : Reader File Client) (at to : Shape)
      → AllFit cs
      → length cs ≤ fuel
      → Reads (some f) d r (all_bytes p.order cs) at
      → PathOf cs at to
      → to.0 ≡ closed
      → Answers ((get_next p >>= parse_loop p fuel) r) (deliver f (map seen cs) d)
  unfolding deliver parse_loop get_next
  parse_loop-Answers [] fuel d r at to fits enough h path over =
      (r, rw (is_closed r.state.state (h.here.current ∙ ap (λ s. s.0) path ∙ over)) refl, h.data_is)
  parse_loop-Answers (c ∷ cs) zero d r at to fits enough h path over = absurd (omega arith)
  parse_loop-Answers (c ∷ cs) (suc fuel) d r at to fits enough h (l, next, q, path) over =
      let (r1, e1, h1) =
        get_next-seen p g (some f) d c r (all_bytes p.order cs) at next fits.0 h l q in
      let r2 : Reader File Client = record r1 { on_element_data = (f (seen c) d).1 } in
      let go_on : M (Reader File Client) (Unit {0}) = get_next p >>= parse_loop p fuel in
      let told_first : (get_next p >>= parse_loop p (suc fuel)) r
          ≡ and_then (returned (f (seen c) d).0 r2) (λ _. go_on) =
        ap (λ s. and_then s (parse_loop p (suc fuel))) e1
        ∙ ap (λ s. and_then s (λ _. go_on))
            (notified (seen c) d r1 (all_bytes p.order cs) next h1) in
      let (r', e', same) =
        answer_first ((f (seen c) d).0 == 0) (f (seen c) d).0 r2 go_on
          (deliver f (map seen cs) (f (seen c) d).1) refl
          (parse_loop-Answers cs fuel (f (seen c) d).1 r2 next to fits.1 (omega arith)
            (with_data (f (seen c) d).1 r1 (all_bytes p.order cs) next h1) path over) in
      (r', told_first ∙ e', same)

  -- A memory reader that has a document before it, written by these calls up to the end of the
  -- document, returns what the delivery of their elements gives.
  parse-Answers :
      (cs : List Call) (fuel : ℕ) (d : Option Client) (r : Reader File Client) (at to : Shape)
      → AllFit cs
      → length cs ≤ fuel
      → Reads (some f) d r (header_bytes ++ all_bytes p.order cs) at
      → PathOf cs at to
      → to.0 ≡ closed
      → Answers (parse p fuel r) (deliver f (map seen cs) d)
  unfolding parse get_first
  parse-Answers cs fuel d r at to fits enough h path over =
      let (r1, e1, h1) = parse_header-Parses p g (some f) d r (all_bytes p.order cs) at h in
      let (r2, e2, same) = parse_loop-Answers cs fuel d r1 at to fits enough h1 path over in
      (r2, ap (λ s. and_then (and_then s (λ _. get_next p)) (parse_loop p fuel)) e1 ∙ e2, same)

module _ {File : Type 0} (p : Platform File) (g : Grants p) where
  -- A document that was written as for the round trip is read with any callback: the parse returns
  -- the first error code that the callback returns, and calls it no more after that, or success if there is none.
  pub round_trip-callback :
      {Client : Type 0} (f : Callback Client) (d : Option Client) (cs : List Call) (fuel : ℕ)
      (w w' : Writer File)
      → AllFit cs
      → IsSmall p g cs
      → new_memory_writer p ≡ ok w tt
      → run p cs w ≡ ok tt w'
      → w'.state.state ≡ closed
      → length cs ≤ fuel
      → (r r' : Reader File Client) × (new_memory_reader p ≡ ok r tt)
        × (read_document p fuel f d w'.buffer w'.bytes r
            ≡ returned (deliver f (map seen cs) d).0 r')
        × (r'.on_element_data ≡ (deliver f (map seen cs) d).1)
  round_trip-callback f d cs fuel w w' fits small new r over enough =
      let doc = run-Document p g cs w w' fits small new r in
      let within : w'.bytes ≤ length w'.buffer =
        omega (arith, doc.stands.valid.sized, doc.stands.valid.within) in
      let start = loaded p g f d w'.buffer w'.bytes in
      let (r', e, same) =
        parse-Answers p g f cs fuel d start (root, []) doc.to fits enough
          (subst (λ xs. Reads (some f) d start xs (root, [])) doc.holds_all
            (loaded-Reads p g f d w'.buffer w'.bytes within (omega (arith, doc.size, small))))
          doc.path (sym doc.stands.here.current ∙ over) in
      (
        idle p,
        r',
        new_memory_reader-idle p g f d,
        loads p g f d w'.buffer w'.bytes (parse p fuel) within ∙ e,
        same,
      )
