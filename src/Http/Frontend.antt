-- ===== src/Http/Frontend.antt =====
-- internal/adapters/inbound/http/frontend_sidecar.go: where the frontend's files are, and what becomes
-- of a request that no file answers. The paths of package filepath, the file system and the parser of
-- package url are parameters; serving the files is echo's affair.
use aelora.Prelude.{ℕ, String, Bool, List, [], ◌∷◌, concat, if◌then◌else◌}
use aelora.Domain.{Result, ok, err}

-- `is_dir` says whether the file system has a directory at a path.
pub record Files : Type 0 where
  pub join : String → String → String
  pub dir : String → String
  pub getwd : Result String
  pub is_dir : String → Bool

module _ (files : Files) where
  unfoldable pub first_dir : List String → String → String
  first_dir [] default = default
  first_dir (path ∷ rest) default =
      let later = first_dir rest default in if files.is_dir path then path else later

  abbrev in_directory : String → String
  in_directory cwd =
      first_dir
        (files.join cwd "frontend"
          ∷ files.join (files.dir cwd) "frontend"
          ∷ files.join (files.join cwd "..") "frontend"
          ∷ [])
        (files.join cwd "frontend")

  abbrev with_cwd : Result String → Result String
  with_cwd (ok cwd) = ok (in_directory cwd)
  with_cwd (err e) = err e

  unfoldable pub resolve_frontend_dir : Result String
  unfolding first_dir
  resolve_frontend_dir = with_cwd files.getwd

-- The status and the location that a request is sent to: its query is dropped.
unfoldable pub redirect : String → String → ℕ × String
redirect backend path = (307, concat backend path)

-- The handler: what becomes of a path that no file answers.
unfoldable pub new_frontend_sidecar_handler :
    (String → Result String) → String → Result (String → ℕ × String)
unfolding redirect
new_frontend_sidecar_handler parse backend_url = elim (parse backend_url) [
  | ok backend ↦ ok (redirect backend)
  | err e ↦ err e
]
