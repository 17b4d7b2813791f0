-- ===== src/System/Files/Again.antt =====
-- system/file.go: the getters of a file do not depend on which of them are called before.
use goss.System.Files.{
  unless_problem, FileHost, DefFile, setup_file, file_getter, with_real_path, real_path, is_given,
}
use goss.Base.{String, ◌≡◌, refl, ap, Bool, true, false, ◌||◌}
use goss.Errors.{Result, ok, err, panic}

module _ (host : FileHost) where
  with_real_path-again :
      (f : DefFile) (r : Result String)
      → (f.loaded ≡ true)
      → setup_file host (with_real_path host f r) ≡ with_real_path host f r
  unfolding setup_file
  with_real_path-again f (ok path) e = rw e refl
  with_real_path-again f (err x) e = rw e refl
  with_real_path-again f panic e = rw e refl

  setup_again :
      (f : DefFile) (b : Bool)
      → (f.loaded || is_given host f.problem ≡ b)
      → setup_file host (setup_file host f) ≡ setup_file host f
  unfolding setup_file
  setup_again f true e = rw e (rw e refl)
  setup_again f false e =
      rw (e, setup_file)
        (with_real_path-again (record f { loaded = true }) (real_path host f.path) refl)

  -- A getter of a file answers the same, and leaves the same object, whatever getter of the object was
  -- called before it. What it reads is a function of the real path.
  pub file_getter-again :
      {A B : Type 0} (read : String → Result A) (before : String → Result B) (f : DefFile)
      → file_getter host read (file_getter host before f).0 ≡ file_getter host read f
  unfolding file_getter
  file_getter-again read before f =
      ap (λ g. (g, unless_problem host g.problem (read g.real_path)))
        (setup_again f (f.loaded || is_given host f.problem) refl)
