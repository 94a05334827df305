-- ===== src/Schema/OperatorConfig.antt =====
-- pkg/api/v1alpha3/types.go: the configuration of an operator index image.
-- Times, arbitrary JSON values and package properties are kept as their JSON text.
use golang_imageindex_list.Prelude.{Bytes, List, [], Bool, false}

-- `OperatorLabels`
pub record OperatorLabels : Type 0 where
  pub license : Bytes
  pub architecture : Bytes
  pub build_date : Bytes
  pub com_redhat_build_host : Bytes
  pub com_redhat_component : Bytes
  pub com_redhat_index_delivery_distribution_scope : Bytes
  pub com_redhat_index_delivery_version : Bytes
  pub com_redhat_license_terms : Bytes
  pub description : Bytes
  pub distribution_scope : Bytes
  pub io_buildah_version : Bytes
  pub io_k8_s_description : Bytes
  pub io_k8_s_display_name : Bytes
  pub io_openshift_build_commit_id : Bytes
  pub io_openshift_build_commit_url : Bytes
  pub io_openshift_build_source_location : Bytes
  pub io_openshift_expose_services : Bytes
  pub io_openshift_maintainer_component : Bytes
  pub io_openshift_maintainer_product : Bytes
  pub io_openshift_maintainer_project : Bytes
  pub io_openshift_tags : Bytes
  pub maintainer : Bytes
  pub name : Bytes
  pub operators_operatorframework_io_index_configs_v1 : Bytes
  pub release : Bytes
  pub summary : Bytes
  pub url : Bytes
  pub vcs_ref : Bytes
  pub vcs_type : Bytes
  pub vendor : Bytes
  pub version : Bytes

abbrev pub zero_operator_labels : OperatorLabels
zero_operator_labels = record {
  license = [];
  architecture = [];
  build_date = [];
  com_redhat_build_host = [];
  com_redhat_component = [];
  com_redhat_index_delivery_distribution_scope = [];
  com_redhat_index_delivery_version = [];
  com_redhat_license_terms = [];
  description = [];
  distribution_scope = [];
  io_buildah_version = [];
  io_k8_s_description = [];
  io_k8_s_display_name = [];
  io_openshift_build_commit_id = [];
  io_openshift_build_commit_url = [];
  io_openshift_build_source_location = [];
  io_openshift_expose_services = [];
  io_openshift_maintainer_component = [];
  io_openshift_maintainer_product = [];
  io_openshift_maintainer_project = [];
  io_openshift_tags = [];
  maintainer = [];
  name = [];
  operators_operatorframework_io_index_configs_v1 = [];
  release = [];
  summary = [];
  url = [];
  vcs_ref = [];
  vcs_type = [];
  vendor = [];
  version = [];
}

-- `OperatorConfig`. `ExposedPorts` holds no value and is left out.
pub record OperatorConfig : Type 0 where
  pub user : Bytes
  pub env : List Bytes
  pub entrypoint : List Bytes
  pub cmd : List Bytes
  pub working_dir : Bytes
  pub labels : OperatorLabels

abbrev pub zero_operator_config : OperatorConfig
zero_operator_config = record {
  user = [];
  env = [];
  entrypoint = [];
  cmd = [];
  working_dir = [];
  labels = zero_operator_labels;
}

-- `OperatorRootFS`
pub record OperatorRootFs : Type 0 where
  pub type : Bytes
  pub diff_ids : List Bytes

abbrev pub zero_operator_root_fs : OperatorRootFs
zero_operator_root_fs = record { type = []; diff_ids = [] }

-- `OperatorHistory`
pub record OperatorHistory : Type 0 where
  pub created : Bytes
  pub comment : Bytes
  pub created_by : Bytes
  pub empty_layer : Bool

abbrev pub zero_operator_history : OperatorHistory
zero_operator_history = record { created = []; comment = []; created_by = []; empty_layer = false }

-- `OperatorConfigSchema`
pub record OperatorConfigSchema : Type 0 where
  pub created : Bytes
  pub architecture : Bytes
  pub os : Bytes
  pub config : OperatorConfig
  pub root_fs : OperatorRootFs
  pub history : List OperatorHistory

abbrev pub zero_operator_config_schema : OperatorConfigSchema
zero_operator_config_schema = record {
  created = [];
  architecture = [];
  os = [];
  config = zero_operator_config;
  root_fs = zero_operator_root_fs;
  history = [];
}
