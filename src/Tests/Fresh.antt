-- ===== src/Tests/Fresh.antt =====
-- A run on an operator image that is copied and not extracted yet.
use golang_imageindex_list.Prelude.{codes, [], ◌∷◌, some, ◌≡◌, refl, bytes_eq}
use golang_imageindex_list.Strings.{contains, split}
use golang_imageindex_list.Exec.{ok, returned, deref, modify, for_each, ◌>>=◌}
use golang_imageindex_list.World.{World, os_call, os_read}
use golang_imageindex_list.Manifest.Untar.{
  target, trim_label, untar, untar_loop, extract_entry, make_dir, make_file, copy_content,
  copy_problem,
}
use golang_imageindex_list.Manifest.Layers.{extract_layer, extract_layers, extract_layers_oci}
use golang_imageindex_list.Manifest.Documents.{
  get_image_index, get_image_manifest, get_operator_config,
}
use golang_imageindex_list.Manifest.Service as ManifestService
use golang_imageindex_list.Manifest.Layers.Image.{extract_layers_oci-contents}
use golang_imageindex_list.Mirror.Images.{Images}
use golang_imageindex_list.Mirror.Copy as MirrorCopy
use golang_imageindex_list.Mirror.Copy.{
  copy, obtain_policy, get_policy_context, choose_policy, copy_with, manifest_type, attempt,
  warn_if_used, reexec_if_necessary_for_images, deferred, replace_error,
}
use golang_imageindex_list.Options.Contexts.{policy_source}
use golang_imageindex_list.Log.Reports.{logged}
use golang_imageindex_list.Cli.Executor.{validate, check_type, complete}
use golang_imageindex_list.Cli.Main.{run_command}
use golang_imageindex_list.Cli.Prepared.{Makes, prepared}
use golang_imageindex_list.Cli.Served.{opened}
use golang_imageindex_list.Cli.Fresh.{extracted, fresh_operator_served}
use golang_imageindex_list.Collector.Paths.{
  operator_cache_dir, operator_blobs_dir, operator_copy_dir, operator_blob, configs_dir,
}
use golang_imageindex_list.Collector.Fetch.{copy_image_to, first_operator_manifest, fetch_operator}
use golang_imageindex_list.Collector.Collect.{log_failure}
use golang_imageindex_list.Collector.Follow.{Holds, IsCopied}
use golang_imageindex_list.Collector.Listing.{operator_messages, operators_listed}
use golang_imageindex_list.Collector.Extracted.{catalog_listing}
use golang_imageindex_list.Tests.Posix.{posix, children, posix-IsFileSystem}
use golang_imageindex_list.Tests.Layered.{
  catalog_header, image, readers, before, disk, g, holds_catalog,
}
use golang_imageindex_list.Tests.Values.{libraries, options, good, operator_config}

abbrev images : Images posix
images = libraries posix

abbrev start : World posix
start = record { os = before; opts = options; level = codes "info"; log = []; stdout = [] }

abbrev begin : World posix
begin = opened readers images [] (codes "operator") start

abbrev copied : World posix
copied = (copy_image_to (MirrorCopy.service images) g (operator_copy_dir g) begin).1

copied-disk : copied.os ≡ disk
unfolding bytes_eq split contains validate check_type complete prepared logged log_failure modify
    operator_copy_dir operator_blob operator_blobs_dir operator_cache_dir configs_dir copy_image_to
    copy obtain_policy get_policy_context choose_policy policy_source copy_with manifest_type
    attempt warn_if_used reexec_if_necessary_for_images deferred replace_error os_call os_read
    for_each deref ◌>>=◌
copied-disk = refl

image_copied :
    copy_image_to (MirrorCopy.service images) g (operator_copy_dir g) begin ≡ (returned tt, copied)
unfolding bytes_eq split contains validate check_type complete prepared logged log_failure modify
    operator_copy_dir operator_blob operator_blobs_dir operator_cache_dir configs_dir copy_image_to
    copy obtain_policy get_policy_context choose_policy policy_source copy_with manifest_type
    attempt warn_if_used reexec_if_necessary_for_images deferred replace_error os_call os_read
    for_each deref ◌>>=◌
image_copied = refl

documents :
    IsCopied posix readers (operator_copy_dir g) (operator_blob g) disk image image (codes "ab")
unfolding bytes_eq split operator_copy_dir operator_blob operator_blobs_dir
documents = record {
  first = good;
  others = [];
  listed = refl;
  split = refl;
  index_there = record { text = codes "{}"; there = refl; decoded = refl };
  image_there = record { text = codes "1"; there = refl; decoded = refl };
}

config_there :
    Holds posix disk readers.unmarshal_operator_config
      (operator_blob g (codes "ab"))
      operator_config
unfolding bytes_eq operator_copy_dir operator_blob operator_blobs_dir
config_there = record { text = codes "1"; there = refl; decoded = refl }

extraction :
    (fetch_operator (ManifestService.service readers) (MirrorCopy.service images) g begin).0
    ≡ returned tt
unfolding fetch_operator first_operator_manifest get_image_index get_image_manifest
    get_operator_config extract_layers_oci extract_layers extract_layer untar untar_loop trim_label
    extract_entry make_dir make_file copy_content copy_problem bytes_eq split contains validate
    check_type complete prepared logged log_failure modify operator_copy_dir operator_blob
    operator_blobs_dir operator_cache_dir configs_dir copy_image_to copy obtain_policy
    get_policy_context choose_policy policy_source copy_with manifest_type attempt warn_if_used
    reexec_if_necessary_for_images deferred replace_error os_call os_read for_each deref ◌>>=◌
extraction = refl

abbrev after : World posix
after = extracted posix-IsFileSystem readers images [] start

-- The two operators.
directory : posix.read_dir after.os (configs_dir g) ≡ ok (codes "op" ∷ codes "other" ∷ [])
unfolding children fetch_operator first_operator_manifest get_image_index get_image_manifest
    get_operator_config extract_layers_oci extract_layers extract_layer untar untar_loop trim_label
    extract_entry make_dir make_file copy_content copy_problem bytes_eq split contains validate
    check_type complete prepared logged log_failure modify operator_copy_dir operator_blob
    operator_blobs_dir operator_cache_dir configs_dir copy_image_to copy obtain_policy
    get_policy_context choose_policy policy_source copy_with manifest_type attempt warn_if_used
    reexec_if_necessary_for_images deferred replace_error os_call os_read for_each deref ◌>>=◌
directory = refl

fresh_operator_served_example :
    (run_command readers images (codes "operator" ∷ []) start
      ≡ (returned 0, (operators_listed readers g (ok (codes "op" ∷ codes "other" ∷ [])) after).1))
    × (operator_messages posix readers (configs_dir g) after.os (codes "op")
        ≡ catalog_listing readers (codes "op") (codes "{}"))
unfolding documents Makes bytes_eq split contains validate check_type complete prepared logged
    log_failure modify operator_copy_dir operator_blob operator_blobs_dir operator_cache_dir
    configs_dir copy_image_to copy obtain_policy get_policy_context choose_policy policy_source
    copy_with manifest_type attempt warn_if_used reexec_if_necessary_for_images deferred
    replace_error os_call os_read for_each deref ◌>>=◌
fresh_operator_served_example =
    fresh_operator_served posix-IsFileSystem readers images [] start copied image image (codes "ab")
      operator_config (codes "ab") (codes "op" ∷ codes "other" ∷ []) catalog_header (codes "{}")
      (codes "op") refl (refl, (refl, (refl, (refl, tt)))) refl image_copied documents refl refl
      config_there refl refl holds_catalog extraction directory

extract_layers_oci-contents_example :
    posix.read_file
      (extract_layers_oci readers
        (operator_blobs_dir g)
        (operator_cache_dir g)
        (codes "/configs/")
        (some image)
        copied).1.os
      (target (operator_cache_dir g) catalog_header)
    ≡ ok (codes "{}")
unfolding fetch_operator first_operator_manifest get_image_index get_image_manifest
    get_operator_config extract_layers_oci extract_layers extract_layer untar untar_loop trim_label
    extract_entry make_dir make_file copy_content copy_problem bytes_eq split contains validate
    check_type complete prepared logged log_failure modify operator_copy_dir operator_blob
    operator_blobs_dir operator_cache_dir configs_dir copy_image_to copy obtain_policy
    get_policy_context choose_policy policy_source copy_with manifest_type attempt warn_if_used
    reexec_if_necessary_for_images deferred replace_error os_call os_read for_each deref ◌>>=◌
extract_layers_oci-contents_example =
    extract_layers_oci-contents posix-IsFileSystem readers (operator_blobs_dir g)
      (operator_cache_dir g) (codes "/configs/") catalog_header (codes "{}") image copied
      holds_catalog refl refl
