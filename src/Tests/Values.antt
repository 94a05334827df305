-- ===== src/Tests/Values.antt =====
-- The data of the runs: documents, an archive, image libraries that copy nothing, options.
use golang_imageindex_list.Prelude.{
  Bytes, codes, List, [], ◌∷◌, none, some, Bool, true, false, if◌then◌else◌,
}
use golang_imageindex_list.Prelude.Int.{pos}
use golang_imageindex_list.Strings.{contains}
use golang_imageindex_list.Exec.{Result, ok, err, pure}
use golang_imageindex_list.Os.{Os}
use golang_imageindex_list.World.{World}
use golang_imageindex_list.Options.{
  GlobalOptions, SharedImageOptions, DockerImageOptions, ImageOptions, ImageDestOptions,
  CopyOptions,
}
use golang_imageindex_list.Schema.Oci.{OciManifest, OciSchema, zero_oci_manifest, zero_oci_schema}
use golang_imageindex_list.Schema.OperatorConfig.{
  OperatorConfigSchema, zero_operator_config_schema, zero_operator_config, zero_operator_labels,
}
use golang_imageindex_list.Schema.Release.{ReleaseSchema, zero_release_schema, zero_tags, zero_spec}
use golang_imageindex_list.Schema.Catalog.{
  DeclarativeConfig, zero_declarative_config, zero_channel_entry,
}
use golang_imageindex_list.Manifest.Formats.{Formats, TarItem, entry}
use golang_imageindex_list.Manifest.Untar.{type_dir, type_reg}
use golang_imageindex_list.Mirror.{Mirror}
use golang_imageindex_list.Mirror.Images.{Images}
use golang_imageindex_list.Tests.Memory.{Disk, memory}

abbrev pub digest : Bytes → OciManifest
digest text = record zero_oci_manifest { digest = text }

abbrev pub good : OciManifest
good = digest (codes "sha256:ab")

abbrev pub bad : OciManifest
bad = digest (codes "md5:cd")

abbrev pub no_colon : OciManifest
no_colon = digest (codes "sha256")

-- One document that serves as an index and as an image.
abbrev pub document : OciSchema
document = record zero_oci_schema { manifests = good ∷ []; config = good; layers = good ∷ [] }

abbrev pub mixed : OciSchema
mixed = record zero_oci_schema { config = good; layers = good ∷ bad ∷ good ∷ [] }

abbrev pub bare_index : OciSchema
bare_index = record zero_oci_schema { manifests = no_colon ∷ [] }

abbrev pub operator_config : OperatorConfigSchema
operator_config = record zero_operator_config_schema {
  config = record zero_operator_config {
    labels = record zero_operator_labels {
      operators_operatorframework_io_index_configs_v1 = codes "/configs/";
    };
  };
}

abbrev pub release : ReleaseSchema
release = record zero_release_schema {
  spec = record zero_spec { tags = record zero_tags { name = codes "cli" } ∷ [] };
}

abbrev pub catalog : List DeclarativeConfig
catalog =
    record zero_declarative_config {
      schema = codes "olm.channel";
      name = codes "stable";
      entries = record zero_channel_entry { name = codes "v2"; replaces = codes "v1" } ∷ [];
    }
    ∷ record zero_declarative_config { schema = codes "olm.bundle"; name = codes "v2" }
    ∷ []

abbrev pub archive : List TarItem
archive =
    entry (record { name = codes "configs"; typeflag = type_dir }) [] none
    ∷ entry (record { name = codes "etc/os"; typeflag = type_reg }) (codes "x") none
    ∷ entry (record { name = codes "configs/a"; typeflag = type_reg }) (codes "y") none
    ∷ []

abbrev pub formats : Formats
formats = record {
  unmarshal_oci = λ text. ok (some document);
  unmarshal_operator_config = λ text. ok (some operator_config);
  unmarshal_release = λ text. ok release;
  unmarshal_catalog = λ text. ok catalog;
  gzip_reader = λ text. ok text;
  tar_items = λ text. archive;
}

-- A name is a reference if it has a colon.
abbrev pub parse_name : Bytes → Result {0} Bytes
parse_name name = if contains name (codes ":") then ok name else err (codes "no transport")

abbrev pub libraries : (O : Os) → Images O
libraries O = record {
  Policy = Bool;
  PolicyContext = Bool;
  ImageReference = Bytes;
  media_types = record {
    image_manifest = codes "application/vnd.oci";
    docker_v2s1_signed = codes "application/v1";
    docker_v2s2 = codes "application/v2";
  };
  transport = λ name. codes "docker";
  warn = λ message. pure tt;
  insecure_policy = true;
  default_policy = pure false;
  policy_from_file = λ path. pure false;
  new_policy_context = pure;
  destroy = λ context. pure tt;
  parse_image_name = parse_name;
  copy_image = λ c context dest src opts. pure [];
  if_necessary = λ c operation times. operation;
}

abbrev pub images : Images memory
images = libraries memory

abbrev pub global : GlobalOptions
global = record {
  log_level = codes "info";
  tls_verify = false;
  policy_path = [];
  insecure_policy = true;
  registries_dir_path = [];
  override_arch = [];
  override_os = [];
  override_variant = [];
  command_timeout = pos 0;
  registries_conf_path = [];
  tmp_dir = [];
  dir = codes "w";
  config_path = [];
  from = [];
  quiet = false;
  force = false;
  image_index = codes "operator";
  reference = codes "r/operator:1";
}

abbrev pub shared : SharedImageOptions
shared = record { auth_file_path = [] }

abbrev pub docker : DockerImageOptions
docker = record {
  auth_file_path = none;
  creds_option = none;
  user_name = none;
  password = none;
  registry_token = none;
  docker_cert_path = [];
  tls_verify = none;
  no_creds = false;
}

abbrev pub image : ImageOptions
image = record { docker = docker; shared_blob_dir = []; docker_daemon_host = [] }

abbrev pub destination : ImageDestOptions
destination = record {
  image = image;
  dir_force_compression = false;
  dir_force_decompression = false;
  oci_accept_uncompressed_layers = false;
  compression_format = [];
  compression_level = none;
  precompute_digests = false;
}

abbrev pub options : CopyOptions
options = record {
  global = global;
  shared = shared;
  deprecated_tls_verify = record { tls_verify = none };
  src_image = image;
  dest_image = destination;
  retry_times = pos 0;
  additional_tags = [];
  remove_signatures = false;
  sign_by_fingerprint = [];
  sign_by_sigstore_private_key = [];
  sign_passphrase_file = [];
  sign_identity = [];
  digest_file = [];
  format = [];
  all = false;
  multi_arch = [];
  preserve_digests = false;
  encrypt_layer = [];
  encryption_keys = [];
  decryption_keys = [];
  mode = [];
  dev = false;
  destination = [];
  uuid = [];
  image_type = [];
}

-- A state with these files.
abbrev pub world : Disk → World memory
world disk = record { os = disk; opts = options; level = codes "info"; log = []; stdout = [] }

abbrev pub release_options : GlobalOptions
release_options = record global { image_index = codes "release"; reference = codes "r/release:4" }

-- A copy that finds the image on the disk already.
abbrev pub idle_mirror : Mirror memory
idle_mirror = record { run = λ src dest mode. pure tt }
