-- ===== src/Policy/SecretFiles.antt =====
-- git/secrets.js: files that hold secrets, by their names.
use autonomous_dev_platform.Base.{
  Bool, true, false, ◌||◌, String, List, [], ◌∷◌, ◌≡◌, refl, ◌==◌, if◌then◌else◌, ignore_case,
  begins, ends, same, same_any, after, anything, somewhere, base_name,
}

abbrev ends_any : List String → String → Bool
ends_any [] t = false
ends_any (p ∷ ps) t = ends ignore_case p t || ends_any ps t

-- `SECRET_FILE_PATTERNS.some(pattern => pattern.test(name))`
abbrev is_secret_name : String → Bool
is_secret_name name =
    same_any ignore_case
      (".env"
        ∷ ("id_rsa" ∷ ("id_dsa" ∷ ("id_ecdsa" ∷ ("id_ed25519" ∷ (".npmrc" ∷ (".pypirc" ∷ [])))))))
      name
    || (begins ignore_case ".env." name
        || (ends_any (".pem" ∷ (".key" ∷ (".p12" ∷ (".pfx" ∷ ("credentials.json" ∷ []))))) name
            || somewhere (after ignore_case "service-account" (anything (same ignore_case ".json")))
                name))

unfoldable pub is_protected_secret_file : String → Bool
is_protected_secret_file path =
    let name = base_name path in
    if name == ""
    then false
    else if ends_any (".example" ∷ (".sample" ∷ (".template" ∷ []))) name
    then false
    else is_secret_name name

env_test : is_protected_secret_file "app/.ENV.local" ≡ true
unfolding is_protected_secret_file
env_test = refl

example_test : is_protected_secret_file "app\\.env.example" ≡ false
unfolding is_protected_secret_file
example_test = refl

account_test : is_protected_secret_file "my-service-account-1.json" ≡ true
unfolding is_protected_secret_file
account_test = refl
