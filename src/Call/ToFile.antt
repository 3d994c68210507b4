-- ===== src/Call/ToFile.antt =====
-- The calls of src/ujo_writer.c on a file writer, compared with the same calls on a memory writer.
use mathlib.Core.Path.{subst}
use libujo_c.Base.{false, ℕ, ◌≡◌, refl, sym, ap, ◌∙◌, true, List, [], ◌∷◌, some}
use libujo_c.Base.Result.{Result, ok}
use libujo_c.Platform.{Platform, Grants}
use libujo_c.Writer.{Writer, header, finished, new_memory_writer, new_file_writer}
use libujo_c.Writer.Put.{contents}
use libujo_c.Writer.Simulate.{
  Appends, put-Appends, Mirrors, Follows, faulted, same_ok, same_err, failed,
}
use libujo_c.Call.{Call}
use libujo_c.Call.Run.{run}
use libujo_c.Call.Mirror.{
  AllReported, empty_memory, empty_file, finished-ok, ends_well, memory_lem, file_lem, header-Both,
  run-Both,
}

module _ {File : Type 0} (p : Platform File) (g : Grants p) (stream : List ℕ → File)
    (appends : Appends p stream) where
  all_reported : (cs : List Call) → AllReported true cs
  all_reported [] = tt
  all_reported (c ∷ cs) = ((λ e. refl), all_reported cs)

  Follows-ok :
      (x y : Result (Writer File) (Unit {0})) (w : Writer File)
      → Follows stream false x y
      → x ≡ ok tt w
      → (v : Writer File) × (y ≡ ok tt v) × Mirrors stream w v
  Follows-ok x y w (faulted z) e = cc
  Follows-ok x y w (same_ok u v b) e =
      let same : u ≡ w = cc in (v, refl, subst (λ t. Mirrors stream t v) same b)
  Follows-ok x y w (failed s z v) e = cc
  Follows-ok x y w (same_err code u v b) e = cc

  -- Calls that succeed on a new memory writer, whatever their arguments are, also succeed on a new file writer, if
  -- the allocator serves every request, the file can be opened and `fwrite` appends all that it is
  -- given: the file then holds the bytes of the memory writer's buffer, and the writer stands at the
  -- same place of the document.
  pub run-file :
      (cs : List Call) (w w' : Writer File) (name : List ℕ)
      → new_memory_writer p ≡ ok w tt
      → run p cs w ≡ ok tt w'
      → p.fopen name true ≡ some (stream [])
      → (v v' : Writer File) × (new_file_writer p name ≡ ok v tt)
        × (run p cs v ≡ ok tt v')
        × (v'.file ≡ some (stream (contents w')))
        × (v'.state ≡ w'.state)
  run-file cs w w' name new r e =
      let begun : header p (empty_memory p) ≡ ok tt w =
        finished-ok p (header p (empty_memory p)) w (sym (memory_lem p g) ∙ new) in
      let (v, made, b) =
        Follows-ok (header p (empty_memory p)) (header p (empty_file p (stream []))) w
          (header-Both p stream false true (put-Appends p g stream appends) (λ e. refl)) begun in
      let (v', done, b') =
        Follows-ok (run p cs w) (run p cs v) w'
          (run-Both p stream false true (put-Appends p g stream appends) (λ e. refl) cs w v
            (all_reported cs) b)
          r in
      (
        v,
        v',
        file_lem p g name (stream []) e ∙ ap (finished p) made ∙ ends_well p v,
        done,
        b'.written,
        sym b'.same_state,
      )
