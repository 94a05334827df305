-- ===== src/Options.antt =====
-- pkg/mirror/options.go: the options of a copy.
-- A pointer is the value that it points to: `NewCliCmd` makes one `GlobalOptions` and one
-- `SharedImageOptions`, to which every `imageOptions` points, so they are kept once, here. A
-- `commonFlag.OptionalX` is an `Option`. Durations are nanoseconds.
pub mod Contexts
pub mod Format
pub mod Flags
use golang_imageindex_list.Prelude.{Bytes, List, Bool, Option}
use golang_imageindex_list.Prelude.Int.{ℤ}

-- `ErrorShouldDisplayUsage`, which nothing makes.
record ErrorShouldDisplayUsage : Type 0 where
  error : Bytes

-- `GlobalOptions`
pub record GlobalOptions : Type 0 where
  pub log_level : Bytes
  pub tls_verify : Bool
  pub policy_path : Bytes
  pub insecure_policy : Bool
  pub registries_dir_path : Bytes
  pub override_arch : Bytes
  pub override_os : Bytes
  pub override_variant : Bytes
  pub command_timeout : ℤ
  pub registries_conf_path : Bytes
  pub tmp_dir : Bytes
  pub dir : Bytes
  pub config_path : Bytes
  pub from : Bytes
  pub quiet : Bool
  pub force : Bool
  pub image_index : Bytes
  pub reference : Bytes

-- `SharedImageOptions`
pub record SharedImageOptions : Type 0 where
  pub auth_file_path : Bytes

-- `DeprecatedTLSVerifyOption`
pub record DeprecatedTlsVerifyOption : Type 0 where
  pub tls_verify : Option Bool

-- `dockerImageOptions`, without its three shared pointers
pub record DockerImageOptions : Type 0 where
  pub auth_file_path : Option Bytes
  pub creds_option : Option Bytes
  pub user_name : Option Bytes
  pub password : Option Bytes
  pub registry_token : Option Bytes
  pub docker_cert_path : Bytes
  pub tls_verify : Option Bool
  pub no_creds : Bool

-- `imageOptions`
pub record ImageOptions : Type 0 where
  pub docker : DockerImageOptions
  pub shared_blob_dir : Bytes
  pub docker_daemon_host : Bytes

-- `imageDestOptions`
pub record ImageDestOptions : Type 0 where
  pub image : ImageOptions
  pub dir_force_compression : Bool
  pub dir_force_decompression : Bool
  pub oci_accept_uncompressed_layers : Bool
  pub compression_format : Bytes
  pub compression_level : Option ℤ
  pub precompute_digests : Bool

-- `CopyOptions`. `retry_times` is the `MaxRetry` of its `RetryOpts`.
pub record CopyOptions : Type 0 where
  pub global : GlobalOptions
  pub shared : SharedImageOptions
  pub deprecated_tls_verify : DeprecatedTlsVerifyOption
  pub src_image : ImageOptions
  pub dest_image : ImageDestOptions
  pub retry_times : ℤ
  pub additional_tags : List Bytes
  pub remove_signatures : Bool
  pub sign_by_fingerprint : Bytes
  pub sign_by_sigstore_private_key : Bytes
  pub sign_passphrase_file : Bytes
  pub sign_identity : Bytes
  pub digest_file : Bytes
  pub format : Bytes
  pub all : Bool
  pub multi_arch : Bytes
  pub preserve_digests : Bool
  pub encrypt_layer : List ℤ
  pub encryption_keys : List Bytes
  pub decryption_keys : List Bytes
  pub mode : Bytes
  pub dev : Bool
  pub destination : Bytes
  pub uuid : Bytes
  pub image_type : Bytes
