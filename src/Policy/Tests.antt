-- ===== src/Policy/Tests.antt =====
-- The policy on single paths.
use shadow_forge.Base.{◌≡◌, refl, ◌↔◌, true, false, ◌||◌, List, [], ◌∷◌, ok, err}
use shadow_forge.Text.{Text, codes, starts_with, text_eq}
use shadow_forge.Policy.{
  default_forbidden_patterns, forbidden_path, validate_path, fnmatch, normalized,
}
use shadow_forge.Policy.Paths.{validate_path-root, git_refusal, validate_path-git}

range_matches : fnmatch (codes "v7.txt") (codes "v[0-9].*") ≡ true
unfolding fnmatch
range_matches = refl

nested_key_refused :
    validate_path default_forbidden_patterns (codes "certs/server.pem")
    ≡ err (forbidden_path (codes "certs/server.pem") (codes "**/*.pem"))
unfolding validate_path default_forbidden_patterns starts_with fnmatch
nested_key_refused = refl

abbrev two_paths : List Text
two_paths = codes "src/a.py" ∷ codes "id_rsa" ∷ []

validate_path-root_example :
    (validate_path default_forbidden_patterns (codes "server.pem") ≡ ok tt) ↔ (
      (text_eq (codes "server.pem") []
          || text_eq (codes "server.pem") (codes ".")
          || text_eq (codes "server.pem") (codes "..")
        ≡ false)
      × (text_eq (codes "server.pem") (codes ".env") ≡ false)
      × (starts_with (codes ".env.") (codes "server.pem") ≡ false))
validate_path-root_example = validate_path-root (codes "server.pem") refl refl

-- What the policy accepts lies below `.git`, once `..` is resolved.
hidden_git_accepted : validate_path default_forbidden_patterns (codes "src/../.git/config") ≡ ok tt
unfolding validate_path default_forbidden_patterns starts_with fnmatch
hidden_git_accepted = refl

validate_path-git_example :
    (validate_path default_forbidden_patterns (codes ".\\.git\\config")
      ≡ git_refusal (codes ".\\.git\\config"))
    ↔ (starts_with (codes ".git/") (normalized (codes ".\\.git\\config")) ≡ true)
validate_path-git_example = validate_path-git (codes ".\\.git\\config")
