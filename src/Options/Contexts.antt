-- ===== src/Options/Contexts.antt =====
-- pkg/mirror/options.go: what the options say to the image library.
use golang_imageindex_list.Prelude.{
  Bytes, codes, Bool, true, not, Option, none, some, [], bytes_eq, if◌then◌else◌,
}
use golang_imageindex_list.Prelude.Int.{ℤ, is_positive}
use golang_imageindex_list.Options.{GlobalOptions, SharedImageOptions, ImageOptions}

-- The fields of `types.SystemContext` that the program sets. The last one is unset or a Boolean.
pub record SystemContext : Type 0 where
  pub registries_dir_path : Bytes
  pub architecture_choice : Bytes
  pub os_choice : Bytes
  pub variant_choice : Bytes
  pub system_registries_conf_path : Bytes
  pub big_files_temporary_dir : Bytes
  pub docker_registry_user_agent : Bytes
  pub docker_cert_path : Bytes
  pub oci_shared_blob_dir_path : Bytes
  pub auth_file_path : Bytes
  pub docker_daemon_host : Bytes
  pub docker_daemon_cert_path : Bytes
  pub docker_insecure_skip_tls_verify : Option Bool

abbrev pub default_user_agent : Bytes
default_user_agent = codes "skopeo/v.19.5"

-- `(*GlobalOptions).NewSystemContext`
unfoldable pub global_system_context : GlobalOptions → SystemContext
global_system_context opts = record {
  registries_dir_path = opts.registries_dir_path;
  architecture_choice = opts.override_arch;
  os_choice = opts.override_os;
  variant_choice = opts.override_variant;
  system_registries_conf_path = opts.registries_conf_path;
  big_files_temporary_dir = opts.tmp_dir;
  docker_registry_user_agent = default_user_agent;
  docker_cert_path = [];
  oci_shared_blob_dir_path = [];
  auth_file_path = [];
  docker_daemon_host = [];
  docker_daemon_cert_path = [];
  docker_insecure_skip_tls_verify = if not opts.tls_verify then some true else none;
}

-- `(*imageOptions).NewSystemContext`, which never fails.
unfoldable pub image_system_context :
    GlobalOptions → SharedImageOptions → ImageOptions → SystemContext
unfolding global_system_context
image_system_context global shared opts = record (global_system_context global) {
  docker_cert_path = opts.docker.docker_cert_path;
  oci_shared_blob_dir_path = opts.shared_blob_dir;
  auth_file_path = shared.auth_file_path;
  docker_daemon_host = opts.docker_daemon_host;
  docker_daemon_cert_path = opts.docker.docker_cert_path;
}

-- A `context.Context`: the background one, or one with a timeout.
pub data Context : Type 0 where
  background : Context
  with_timeout : ℤ → Context

-- `CommandTimeoutContext`. The cancellation callback releases a timer and is left out.
unfoldable pub command_timeout_context : GlobalOptions → Context
unfolding is_positive
command_timeout_context opts =
    if is_positive opts.command_timeout then with_timeout opts.command_timeout else background

-- The choice that `GetPolicyContext` makes.
pub data PolicySource : Type 0 where
  accept_anything default_policy : PolicySource
  from_file : Bytes → PolicySource

unfoldable pub policy_source : GlobalOptions → PolicySource
policy_source opts =
    if opts.insecure_policy
    then accept_anything
    else if bytes_eq opts.policy_path []
    then default_policy
    else from_file opts.policy_path
