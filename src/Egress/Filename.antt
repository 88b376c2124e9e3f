-- ===== src/Egress/Filename.antt =====
-- `EgressFilter::is_sensitive_filename`. Unicode lower case is a parameter.
use code_mentat.Base.{
  Bool, ◌||◌, Option, none, some, List, [], ◌∷◌, Text, codes, starts_with, has_substring, FilePath,
  file_name, extension, any, ◌==◌, nat_eq, list_eq,
}

abbrev text_or_empty : Option Text → Text
text_or_empty none = []
text_or_empty (some t) = t

abbrev pub secret_extensions : List Text
secret_extensions =
    codes "pem"
    ∷ codes "key"
    ∷ codes "pfx"
    ∷ codes "p12"
    ∷ codes "pkcs12"
    ∷ codes "crt"
    ∷ codes "cer"
    ∷ codes "kdbx"
    ∷ []

abbrev pub sensitive_keywords : List Text
sensitive_keywords =
    codes "id_rsa"
    ∷ codes "id_ed25519"
    ∷ codes "id_dsa"
    ∷ codes "id_ecdsa"
    ∷ codes "token"
    ∷ codes "tokens"
    ∷ codes "credential"
    ∷ codes "credentials"
    ∷ codes "secret"
    ∷ codes "secrets"
    ∷ codes "password"
    ∷ codes "passwords"
    ∷ codes "private_key"
    ∷ codes "privkey"
    ∷ codes "auth_token"
    ∷ codes "apikey"
    ∷ codes "aws_access_key"
    ∷ codes "jwt_secret"
    ∷ []

module _ (to_lowercase : Text → Text) where
  is_sensitive_name : Text → Text → Bool
  is_sensitive_name name ext =
      name == codes ".env"
      || starts_with (codes ".env.") name
      || has_substring (codes ".env") name
      || any (λ e. ext == e) secret_extensions
      || any (λ keyword. has_substring keyword name) sensitive_keywords

  unfoldable pub is_sensitive_filename : FilePath → Bool
  unfolding is_sensitive_name
  is_sensitive_filename path =
      is_sensitive_name (to_lowercase (text_or_empty (file_name path)))
        (to_lowercase (text_or_empty (extension path)))
