-- ===== src/Tests/Releases.antt =====
-- A run on a release image that is copied and not extracted yet.
use mathlib.Core.Path.{subst}
use golang_imageindex_list.Prelude.{
  codes, List, is_empty, if◌then◌else◌, [], ◌∷◌, ◌++◌, none, ◌≡◌, ◌≢◌, sym, refl, bytes_eq,
}
use golang_imageindex_list.Strings.{contains, has_prefix, split}
use golang_imageindex_list.Exec.{ok, err, returned, deref, modify, for_each, ◌>>=◌}
use golang_imageindex_list.World.{World, os_call, os_read}
use golang_imageindex_list.Options.{GlobalOptions}
use golang_imageindex_list.Options.Contexts.{policy_source}
use golang_imageindex_list.Log.Reports.{logged}
use golang_imageindex_list.Manifest.Formats.{Formats, Header, TarItem, entry}
use golang_imageindex_list.Manifest.Untar.{type_dir, type_reg, trim_label}
use golang_imageindex_list.Manifest.Untar.Frame.{KeptAt, Targets}
use golang_imageindex_list.Manifest.Layers.Archives.{SameBlobs, LayerTargets}
use golang_imageindex_list.Mirror.Images.{Images}
use golang_imageindex_list.Mirror.Copy as MirrorCopy
use golang_imageindex_list.Mirror.Copy.{
  copy, obtain_policy, get_policy_context, choose_policy, copy_with, manifest_type, attempt,
  warn_if_used, reexec_if_necessary_for_images, deferred, replace_error,
}
use golang_imageindex_list.Collector.Paths.{
  release_cache_dir, release_copy_dir, release_blob, release_blobs_dir, release_to_dir,
  artifacts_dir, release_manifest,
}
use golang_imageindex_list.Collector.Collect.{log_failure}
use golang_imageindex_list.Collector.Fetch.{copy_image_to}
use golang_imageindex_list.Collector.Follow.{IsCopied}
use golang_imageindex_list.Collector.Release.{IsUnreadable}
use golang_imageindex_list.Cli.Executor.{validate, check_type, complete}
use golang_imageindex_list.Cli.Main.{run_command}
use golang_imageindex_list.Cli.Prepared.{Makes, prepared}
use golang_imageindex_list.Cli.Served.{opened}
use golang_imageindex_list.Cli.Lost.{release_never_served}
use golang_imageindex_list.Tests.Memory.{file}
use golang_imageindex_list.Tests.Posix.{posix}
use golang_imageindex_list.Tests.Values.{
  libraries, release_options, formats, release, document, good, world,
}

abbrev directory : Header
directory = record { name = codes "release-manifests"; typeflag = type_dir }

abbrev references : Header
references = record { name = codes "release-manifests/image-references"; typeflag = type_reg }

abbrev items : List TarItem
items = entry directory [] none ∷ entry references (codes "{}") none ∷ []

-- The decoder of a release refuses an empty text.
abbrev readers : Formats
readers = record formats {
  unmarshal_release =
      λ text. if is_empty text then err (codes "unexpected end of JSON input") else ok release;
  tar_items = λ stream. items;
}

abbrev images : Images posix
images = libraries posix

abbrev g : GlobalOptions
g = record release_options { dir = codes "working-dir"; image_index = codes "release" }

-- The image of a run before.
abbrev start : World posix
start = record {
  os =
      (release_copy_dir g ++ codes "/index.json", file (codes "{}"))
      ∷ (release_blob g (codes "ab"), file (codes "{}"))
      ∷ [];
  opts = record (world []).opts { global = release_options };
  level = codes "info";
  log = [];
  stdout = [];
}

abbrev begin : World posix
begin = opened readers images [] (codes "release") start

abbrev copied : World posix
copied = (copy_image_to (MirrorCopy.service images) g (release_copy_dir g) begin).1

image_copied :
    copy_image_to (MirrorCopy.service images) g (release_copy_dir g) begin ≡ (returned tt, copied)
unfolding bytes_eq split contains validate check_type complete prepared logged log_failure modify
    release_copy_dir release_blob release_blobs_dir release_cache_dir copy_image_to copy
    obtain_policy get_policy_context choose_policy policy_source copy_with manifest_type attempt
    warn_if_used reexec_if_necessary_for_images deferred replace_error os_call os_read for_each
    deref ◌>>=◌
image_copied = refl

documents :
    IsCopied posix readers
      (release_copy_dir g)
      (release_blob g)
      copied.os
      document
      document
      (codes "ab")
unfolding bytes_eq split contains validate check_type complete prepared logged log_failure modify
    release_copy_dir release_blob release_blobs_dir release_cache_dir copy_image_to copy
    obtain_policy get_policy_context choose_policy policy_source copy_with manifest_type attempt
    warn_if_used reexec_if_necessary_for_images deferred replace_error os_call os_read for_each
    deref ◌>>=◌
documents = record {
  first = good;
  others = [];
  listed = refl;
  split = refl;
  index_there = record { text = codes "{}"; there = refl; decoded = refl };
  image_there = record { text = codes "{}"; there = refl; decoded = refl };
}

Unreadable-kept :
    LayerTargets posix readers
      (release_blobs_dir g)
      copied.os
      (KeptAt posix (IsUnreadable posix g))
      (release_to_dir g)
      (trim_label release_manifest)
      document.layers
unfolding Targets trim_label contains bytes_eq has_prefix release_to_dir artifacts_dir
Unreadable-kept blob among found a =
    subst
      (Targets (KeptAt posix (IsUnreadable posix g)) (release_to_dir g)
        (trim_label release_manifest))
      (sym a.read)
      (
        (λ _. record { mkdir_all = λ s p. p; create = λ s p. p; copy = λ b s p. p }),
        ((λ _. record { mkdir_all = λ s p. p; create = λ s p. p; copy = λ b s p. p }), tt),
      )

blobs_kept :
    LayerTargets posix readers
      (release_blobs_dir g)
      copied.os
      (KeptAt posix (SameBlobs posix readers (release_blobs_dir g) copied.os document.layers))
      (release_to_dir g)
      (trim_label release_manifest)
      document.layers
unfolding Targets trim_label contains bytes_eq has_prefix release_to_dir release_blobs_dir
blobs_kept blob among found a =
    subst
      (Targets
        (KeptAt posix (SameBlobs posix readers (release_blobs_dir g) copied.os document.layers))
        (release_to_dir g) (trim_label release_manifest))
      (sym a.read)
      (
        (λ _. record { mkdir_all = λ s p. p; create = λ s p. p; copy = λ b s p. p }),
        ((λ _. record { mkdir_all = λ s p. p; create = λ s p. p; copy = λ b s p. p }), tt),
      )

release_never_served_example :
    (run_command readers images (codes "release" ∷ []) start).0 ≢ returned 0
unfolding documents Makes artifacts_dir bytes_eq split contains validate check_type complete
    prepared logged log_failure modify release_copy_dir release_blob release_blobs_dir
    release_cache_dir copy_image_to copy obtain_policy get_policy_context choose_policy
    policy_source copy_with manifest_type attempt warn_if_used reexec_if_necessary_for_images
    deferred replace_error os_call os_read for_each deref ◌>>=◌
release_never_served_example =
    release_never_served readers images (codes "unexpected end of JSON input", refl) [] start copied
      document document (codes "ab") refl (refl, (refl, (refl, (refl, tt)))) refl image_copied
      documents blobs_kept Unreadable-kept (codes "no such file or directory", refl)
