-- ===== src/Options/Flags.antt =====
-- pkg/mirror/options.go: the flags that write into the options, in the order of their registration.
-- The texts of the help and the shorthands are left out.
pub mod Keeps
pub mod Commute
use golang_imageindex_list.Prelude.{
  Bytes, codes, Bool, true, false, Option, none, some, List, [], ◌∷◌, ◌++◌, map, is_empty,
  if◌then◌else◌, bytes_eq,
}
use golang_imageindex_list.Prelude.Int.{ℤ}
use golang_imageindex_list.Exec.{Result, ok, err}
use golang_imageindex_list.Options.{
  SharedImageOptions, DeprecatedTlsVerifyOption, DockerImageOptions, ImageOptions, ImageDestOptions,
}

-- How the flag libraries read the value of a flag, as parameters.
pub record Values : Type 0 where
  pub parse_bool : Bytes → Result {0} Bool
  pub parse_int : Bytes → Result {0} ℤ

-- The variable that a flag writes: `StringVar`, `BoolVar`, `IntVar`, or an optional one, which is
-- unset until its flag is given. It is a write of the value into the options `S`.
pub data Variable (S : Type 0) : Type 0 where
  text : (Bytes → S → S) → Variable S
  boolean : (Bool → S → S) → Variable S
  integer : (ℤ → S → S) → Variable S
  optional_text : (Option Bytes → S → S) → Variable S
  optional_boolean : (Option Bool → S → S) → Variable S
  optional_integer : (Option ℤ → S → S) → Variable S

pub record Flag (S : Type 0) : Type 0 where
  pub name : Bytes
  pub hidden : Bool
  pub variable : Variable S

module _ {S : Type 0} where
  -- The write of a value that was read.
  abbrev pub written : {A : Type 0} → (A → S → S) → Result A → S → Result S
  written put (ok a) s = ok (put a s)
  written put (err e) s = err e

  -- `Set` of the variable.
  unfoldable pub set_variable : Values → Variable S → Bytes → S → Result S
  set_variable values (text put) value s = ok (put value s)
  set_variable values (boolean put) value s = written put (values.parse_bool value) s
  set_variable values (integer put) value s = written put (values.parse_int value) s
  set_variable values (optional_text put) value s = ok (put (some value) s)
  set_variable values (optional_boolean put) value s =
      written (λ b. put (some b)) (values.parse_bool value) s
  set_variable values (optional_integer put) value s =
      written (λ i. put (some i)) (values.parse_int value) s

  -- A flag that is shown in the help.
  abbrev pub flag : Bytes → Variable S → Flag S
  flag name variable = record { name = name; hidden = false; variable = variable }

  abbrev pub hidden_flag : Bytes → Variable S → Flag S
  hidden_flag name variable = record { name = name; hidden = true; variable = variable }

module _ {S : Type 0} where
  -- `Lookup`
  unfoldable pub find_flag : Bytes → List (Flag S) → Option (Flag S)
  unfolding bytes_eq
  find_flag name [] = none
  find_flag name (f ∷ flags) = if bytes_eq f.name name then some f else find_flag name flags

  abbrev pub add_missing : Option (Flag S) → Flag S → List (Flag S) → List (Flag S)
  add_missing none f flags = flags ++ f ∷ []
  add_missing (some _) f flags = flags

  -- `AddFlagSet`, which passes over a flag whose name is there already.
  unfoldable pub add_flag_set : List (Flag S) → List (Flag S) → List (Flag S)
  unfolding find_flag
  add_flag_set flags [] = flags
  add_flag_set flags (f ∷ more) = add_flag_set (add_missing (find_flag f.name flags) f flags) more

-- The variable as one of larger options, of which `get` and `put` give the part.
module _ {S T : Type 0} (get : T → S) (put : S → T → T) where
  abbrev pub inside : {A : Type 0} → (A → S → S) → A → T → T
  inside write a t = put (write a (get t)) t

  abbrev pub variable_of : Variable S → Variable T
  variable_of (text write) = text (inside write)
  variable_of (boolean write) = boolean (inside write)
  variable_of (integer write) = integer (inside write)
  variable_of (optional_text write) = optional_text (inside write)
  variable_of (optional_boolean write) = optional_boolean (inside write)
  variable_of (optional_integer write) = optional_integer (inside write)

  unfoldable pub flag_of : Flag S → Flag T
  flag_of f = record { name = f.name; hidden = f.hidden; variable = variable_of f.variable }

-- `DeprecatedTLSVerifyFlags`
unfoldable pub deprecated_tls_verify_flags : List (Flag DeprecatedTlsVerifyOption)
deprecated_tls_verify_flags =
    hidden_flag (codes "tls-verify") (optional_boolean (λ b o. record o { tls_verify = b })) ∷ []

-- `SharedImageFlags`
unfoldable pub shared_image_flags : List (Flag SharedImageOptions)
shared_image_flags =
    flag (codes "authfile") (text (λ path o. record o { auth_file_path = path })) ∷ []

-- A variable in the embedded `dockerImageOptions`.
abbrev pub docker : Flag DockerImageOptions → Flag ImageOptions
docker = flag_of (λ o. o.docker) (λ d o. record o { docker = d })

-- `dockerImageFlags`
unfoldable pub docker_image_flags : Bytes → Bytes → List (Flag ImageOptions)
unfolding flag_of
docker_image_flags flag_prefix creds_option_alias = map docker (
    (if is_empty flag_prefix
      then []
      else flag (flag_prefix ++ codes "authfile")
          (optional_text (λ v d. record d { auth_file_path = v }))
        ∷ [])
    ++ (flag (flag_prefix ++ codes "creds") (optional_text (λ v d. record d { creds_option = v }))
        ∷ flag (flag_prefix ++ codes "username") (optional_text (λ v d. record d { user_name = v }))
        ∷ flag (flag_prefix ++ codes "password") (optional_text (λ v d. record d { password = v }))
        ∷ [])
    ++ (if is_empty creds_option_alias
        then []
        else hidden_flag creds_option_alias (optional_text (λ v d. record d { creds_option = v }))
          ∷ [])
    ++ (flag (flag_prefix ++ codes "registry-token")
          (optional_text (λ v d. record d { registry_token = v }))
        ∷ flag (flag_prefix ++ codes "cert-dir") (text (λ v d. record d { docker_cert_path = v }))
        ∷ flag (flag_prefix ++ codes "tls-verify")
            (optional_boolean (λ v d. record d { tls_verify = v }))
        ∷ flag (flag_prefix ++ codes "no-creds") (boolean (λ v d. record d { no_creds = v }))
        ∷ []))

-- `ImageFlags`
unfoldable pub image_flags : Bytes → Bytes → List (Flag ImageOptions)
unfolding docker_image_flags add_flag_set
image_flags flag_prefix creds_option_alias =
    add_flag_set
      (flag (flag_prefix ++ codes "shared-blob-dir")
          (text (λ v o. record o { shared_blob_dir = v }))
        ∷ flag (flag_prefix ++ codes "daemon-host")
            (text (λ v o. record o { docker_daemon_host = v }))
        ∷ [])
      (docker_image_flags flag_prefix creds_option_alias)

-- `ImageDestFlags`
unfoldable pub image_dest_flags : Bytes → Bytes → List (Flag ImageDestOptions)
unfolding image_flags flag_of add_flag_set
image_dest_flags flag_prefix creds_option_alias =
    add_flag_set [] (
      map (flag_of (λ o. o.image) (λ i o. record o { image = i }))
        (image_flags flag_prefix creds_option_alias))
    ++ (flag (flag_prefix ++ codes "compress")
          (boolean (λ v o. record o { dir_force_compression = v }))
        ∷ flag (flag_prefix ++ codes "decompress")
            (boolean (λ v o. record o { dir_force_decompression = v }))
        ∷ flag (flag_prefix ++ codes "oci-accept-uncompressed-layers")
            (boolean (λ v o. record o { oci_accept_uncompressed_layers = v }))
        ∷ flag (flag_prefix ++ codes "compress-format")
            (text (λ v o. record o { compression_format = v }))
        ∷ flag (flag_prefix ++ codes "compress-level")
            (optional_integer (λ v o. record o { compression_level = v }))
        ∷ flag (flag_prefix ++ codes "precompute-digests")
            (boolean (λ v o. record o { precompute_digests = v }))
        ∷ [])

-- `RetryFlags`. Its options are a number here.
unfoldable pub retry_flags : List (Flag ℤ)
retry_flags = flag (codes "retry-times") (integer (λ v _. v)) ∷ []
