-- ===== src/Cli/Flags.antt =====
-- pkg/cli/executor.go: the flags and the options of `NewCliCmd`.
pub mod Laws
pub mod Sides
pub mod Names
use golang_imageindex_list.Prelude.{
  Bytes, codes, Bool, true, false, Option, none, some, List, [], ◌∷◌, ◌++◌, ◌≡◌, map, bytes_eq,
  if◌then◌else◌,
}
use golang_imageindex_list.Prelude.Int.{pos}
use golang_imageindex_list.Exec.{ok}
use golang_imageindex_list.Options.{
  GlobalOptions, SharedImageOptions, DeprecatedTlsVerifyOption, DockerImageOptions, ImageOptions,
  ImageDestOptions, CopyOptions,
}
use golang_imageindex_list.Options.Flags.{
  Values, add_flag_set, text, Flag, flag, flag_of, set_variable, shared_image_flags,
  deprecated_tls_verify_flags, retry_flags, image_flags, image_dest_flags,
}
use golang_imageindex_list.Prelude.{Among}

abbrev pub zero_docker_image_options : DockerImageOptions
zero_docker_image_options = record {
  auth_file_path = none;
  creds_option = none;
  user_name = none;
  password = none;
  registry_token = none;
  docker_cert_path = [];
  tls_verify = none;
  no_creds = false;
}

abbrev pub zero_image_options : ImageOptions
zero_image_options = record {
  docker = zero_docker_image_options;
  shared_blob_dir = [];
  docker_daemon_host = [];
}

abbrev pub zero_image_dest_options : ImageDestOptions
zero_image_dest_options = record {
  image = zero_image_options;
  dir_force_compression = false;
  dir_force_decompression = false;
  oci_accept_uncompressed_layers = false;
  compression_format = [];
  compression_level = none;
  precompute_digests = false;
}

-- `global`, with the default of `--loglevel`.
abbrev pub initial_global : GlobalOptions
initial_global = record {
  log_level = codes "info";
  tls_verify = false;
  policy_path = [];
  insecure_policy = true;
  registries_dir_path = [];
  override_arch = [];
  override_os = [];
  override_variant = [];
  command_timeout = pos 0;
  registries_conf_path = [];
  tmp_dir = [];
  dir = [];
  config_path = [];
  from = [];
  quiet = false;
  force = false;
  image_index = [];
  reference = [];
}

-- `opts`, when the flags are registered. `--authfile` takes its default from the environment.
abbrev pub initial_options : Bytes → CopyOptions
initial_options registry_auth_file = record {
  global = initial_global;
  shared = record { auth_file_path = registry_auth_file };
  deprecated_tls_verify = record { tls_verify = none };
  src_image = zero_image_options;
  dest_image = zero_image_dest_options;
  retry_times = pos 0;
  additional_tags = [];
  remove_signatures = false;
  sign_by_fingerprint = [];
  sign_by_sigstore_private_key = [];
  sign_passphrase_file = [];
  sign_identity = [];
  digest_file = [];
  format = [];
  all = false;
  multi_arch = [];
  preserve_digests = false;
  encrypt_layer = [];
  encryption_keys = [];
  decryption_keys = [];
  mode = [];
  dev = false;
  destination = [];
  uuid = 0 ∷ 0 ∷ 0 ∷ 0 ∷ 0 ∷ 0 ∷ 0 ∷ 0 ∷ 0 ∷ 0 ∷ 0 ∷ 0 ∷ 0 ∷ 0 ∷ 0 ∷ 0 ∷ [];
  image_type = [];
}

abbrev pub global_flag : Flag GlobalOptions → Flag CopyOptions
global_flag = flag_of (λ o. o.global) (λ g o. record o { global = g })

-- The flags of the source, with the prefix `src-`.
unfoldable pub source_flags : List (Flag CopyOptions)
unfolding image_flags
source_flags =
    map (flag_of (λ o. o.src_image) (λ i o. record o { src_image = i }))
      (image_flags (codes "src-") (codes "screds"))

-- The flags of the destination, with the prefix `dest-`.
unfoldable pub destination_flags : List (Flag CopyOptions)
unfolding image_dest_flags
destination_flags =
    map (flag_of (λ o. o.dest_image) (λ i o. record o { dest_image = i }))
      (image_dest_flags (codes "dest-") (codes "dcreds"))

-- The flags of the command itself.
own_flags : List (Flag CopyOptions)
own_flags =
    global_flag (flag (codes "loglevel") (text (λ v g. record g { log_level = v })))
    ∷ global_flag (flag (codes "image-index") (text (λ v g. record g { reference = v })))
    ∷ []

-- The flags of the command, in the order of their registration.
unfoldable pub command_flags : List (Flag CopyOptions)
unfolding shared_image_flags retry_flags deprecated_tls_verify_flags source_flags destination_flags
    own_flags add_flag_set
command_flags =
    let with_shared =
      add_flag_set own_flags
        (map (flag_of (λ o. o.shared) (λ s o. record o { shared = s })) shared_image_flags) in
    let with_retry =
      add_flag_set with_shared
        (map (flag_of (λ o. o.retry_times) (λ r o. record o { retry_times = r })) retry_flags) in
    let with_tls = add_flag_set with_retry (
      map (flag_of (λ o. o.deprecated_tls_verify) (λ d o. record o { deprecated_tls_verify = d }))
        deprecated_tls_verify_flags) in
    add_flag_set (add_flag_set with_tls source_flags) destination_flags

-- The options that a command line can leave: those at the start, with the flags of the command set
-- one after the other.
pub data IsParsed (values : Values) (registry_auth_file : Bytes) : CopyOptions → Type 0 where
  start : IsParsed values registry_auth_file (initial_options registry_auth_file)
  set :
      {opts opts' : CopyOptions} (f : Flag CopyOptions) (value : Bytes)
      → IsParsed values registry_auth_file opts
      → Among f command_flags
      → set_variable values f.variable value opts ≡ ok opts'
      → IsParsed values registry_auth_file opts'
