-- ===== src/Writer/Refuse.antt =====
-- The pieces that the functions of src/ujo_writer.c put into memory, where the allocator may refuse
-- a larger buffer.
use libujo_c.Base.{
  ℕ, ◌+◌, ◌<◌, ◌≤◌, ◌*◌, ◌⊎◌, ◌≡◌, refl, sym, ap, ◌∙◌, false, List, [], ◌∷◌, ◌++◌, arith, inl, inr,
  length, length-append, append_assoc,
}
use libujo_c.Base.Result.{M, err, and_then}
use libujo_c.Types.{err_allocation}
use libujo_c.Platform.{Platform}
use libujo_c.Writer.{Writer}
use libujo_c.Writer.Put.{IsValid, HasRoom, Wrote, put-or_refused}
use libujo_c.Writer.Entry.{joined, write_all, Wrote-Wrote, Wrote-nothing}

-- `w'` is `w` with the beginning of `xs` written, where the rest needs a larger buffer that the
-- allocator refuses, of at most twice all of it and 4096 bytes.
pub record Cut {File : Type 0} (p : Platform File) (w : Writer File) (xs : List ℕ)
    (w' : Writer File) : Type 0 where
  pub before : List ℕ
  pub rest : List ℕ
  pub split : xs ≡ before ++ rest
  pub wrote : Wrote w before w'
  pub lacks : w'.buffersize < w'.bytes + length rest
  pub size : ℕ
  pub larger : w'.buffersize < size
  pub bounded : size ≤ 2 * (w'.bytes + length rest) + 4096
  pub refused : p.grants size ≡ false

module _ {File : Type 0} (p : Platform File) where
  Cut-behind :
      (w w1 w2 : Writer File) (xs ys : List ℕ)
      → Wrote w xs w1
      → Cut p w1 ys w2
      → Cut p w (xs ++ ys) w2
  Cut-behind w w1 w2 xs ys d c = record {
    before = xs ++ c.before;
    rest = c.rest;
    split = ap (λ zs. xs ++ zs) c.split ∙ sym (append_assoc xs c.before c.rest);
    wrote = Wrote-Wrote p w w1 w2 xs c.before d c.wrote;
    lacks = c.lacks;
    size = c.size;
    larger = c.larger;
    bounded = c.bounded;
    refused = c.refused;
  }

  -- All pieces are written, or an allocation fails in between.
  pub write_all-or_Cut :
      (cs : List (List ℕ)) (k : M (Writer File) (Unit {0})) (w : Writer File)
      → IsValid w
      → HasRoom w (length (joined cs))
      → ((w' : Writer File) × (write_all p cs k w ≡ k w') × Wrote w (joined cs) w')
        ⊎ ((w' : Writer File) × (write_all p cs k w ≡ err err_allocation w')
            × Cut p w (joined cs) w')
  unfolding write_all
  write_all-or_Cut [] k w v h = inl (w, refl, Wrote-nothing p w v)
  write_all-or_Cut (c ∷ cs) k w v h =
      let long : length (c ++ joined cs) ≡ length c + length (joined cs) =
        length-append c (joined cs) in
      elim (put-or_refused p w c v (omega (arith, long))) [
        | inr (e, size, larger, bounded, refused, lacks) ↦ inr (
          w,
          ap (λ r. and_then r (λ _. write_all p cs k)) e,
          record {
            before = [];
            rest = c ++ joined cs;
            split = refl;
            wrote = Wrote-nothing p w v;
            lacks = omega (arith, long);
            size = size;
            larger = larger;
            bounded = omega (arith, bounded, long);
            refused = refused;
          },
        )
        | inl (w1, e, d) ↦ elim (write_all-or_Cut cs k w1 d.valid (omega (arith, long, d.count))) [
          | inl (w2, e', d') ↦ inl (
            w2,
            ap (λ r. and_then r (λ _. write_all p cs k)) e ∙ e',
            Wrote-Wrote p w w1 w2 c (joined cs) d d',
          )
          | inr (w2, e', cut) ↦ inr (
            w2,
            ap (λ r. and_then r (λ _. write_all p cs k)) e ∙ e',
            Cut-behind w w1 w2 c (joined cs) d cut,
          )
        ]
      ]
