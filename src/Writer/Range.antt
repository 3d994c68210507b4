-- ===== src/Writer/Range.antt =====
-- Which numbers `ujo_writer_add_float16` of src/ujo_writer.c refuses.
use libujo_c.Base.{ℕ, ◌^◌, ◌≤◌, ◌<◌, ◌≡◌, refl, ◌∙◌, true, Bool-cases, inl, inr, arith}
use libujo_c.Base.Result.{err}
use libujo_c.Types.{err_invalid_data}
use libujo_c.Platform.{Platform}
use libujo_c.State.{allow_atomic}
use libujo_c.Half.{float_to_half, isinf_float16, isnan_float16}
use libujo_c.Half.Units.{single_exponent}
use libujo_c.Half.Range.{isinf_float16-float_to_half}
use libujo_c.Writer.{Writer}
use libujo_c.Writer.Values.{add_float16, refuse_float16}

module _ {File : Type 0} (p : Platform File) where
  refuse_float16-infinite :
      (h : ℕ) (w : Writer File)
      → isinf_float16 h ≡ true
      → refuse_float16 p h w ≡ err err_invalid_data w
  unfolding refuse_float16
  refuse_float16-infinite h w e = elim (Bool-cases (isnan_float16 h)) [
    | inl n ↦ rw n refl
    | inr n ↦ rw (n, e) refl
  ]

  -- Where a value may stand, `ujo_writer_add_float16` refuses each number from the magnitude 65536 on,
  -- infinity and NaN with UJO_ERR_INVALID_DATA, and leaves the writer as it was.
  pub add_float16-out_of_range :
      (v : ℕ) (w : Writer File)
      → v < 2 ^ 32
      → 143 ≤ single_exponent v
      → allow_atomic w.state.state ≡ true
      → add_float16 p v w ≡ err err_invalid_data w
  unfolding add_float16
  add_float16-out_of_range v w small large allowed =
      let infinite : isinf_float16 (float_to_half v) ≡ true =
        isinf_float16-float_to_half v small ∙ ground arith in
      rw (allowed, refuse_float16-infinite (float_to_half v) w infinite) refl
