-- ===== src/Tests/Trusted.antt =====
-- A run on a release image that is copied, with image libraries that do not panic.
use mathlib.Core.Path.{subst}
use golang_imageindex_list.Prelude.{
  arith, codes, [], ◌∷◌, ◌++◌, some, ◌≡◌, refl, bytes_eq, if◌then◌else◌,
}
use golang_imageindex_list.Strings.{contains, split}
use golang_imageindex_list.Exec.{ok, deref, modify, for_each, ◌>>=◌}
use golang_imageindex_list.Exec.Safe.{IsSafe-pure}
use golang_imageindex_list.World.{World, os_call, os_read}
use golang_imageindex_list.Options.{GlobalOptions}
use golang_imageindex_list.Options.Contexts.{policy_source}
use golang_imageindex_list.Schema.Oci.{OciSchema, zero_oci_schema}
use golang_imageindex_list.Manifest.Formats.{Formats}
use golang_imageindex_list.Mirror.{Mirror}
use golang_imageindex_list.Mirror.Copy as MirrorCopy
use golang_imageindex_list.Mirror.Copy.{
  copy, obtain_policy, get_policy_context, choose_policy, copy_with, manifest_type, attempt,
  warn_if_used, reexec_if_necessary_for_images, deferred, replace_error,
}
use golang_imageindex_list.Mirror.Safe.{IsSafeImages, copy-IsSafe}
use golang_imageindex_list.Collector.Collect.{log_failure}
use golang_imageindex_list.Collector.Branch.{open_log}
use golang_imageindex_list.Collector.Fetch.{copy_image_to}
use golang_imageindex_list.Collector.Layouts.{layout_blob}
use golang_imageindex_list.Collector.Paths.{release_copy_dir}
use golang_imageindex_list.Collector.Trust.{IsSafeMirror, IsImageLayout, CopiesLayout}
use golang_imageindex_list.Cli.Executor.{
  validate, check_type, complete, prepare, make_logged, or_log,
}
use golang_imageindex_list.Cli.Safe.{calling}
use golang_imageindex_list.Tests.Flags.{with_tls_verify}
use golang_imageindex_list.Tests.Memory.{memory, file}
use golang_imageindex_list.Tests.Values.{formats, images, good, world}

pub images-IsSafeImages : IsSafeImages images
images-IsSafeImages = record {
  warn = λ message. IsSafe-pure tt;
  default_policy = IsSafe-pure _;
  policy_from_file = λ path. IsSafe-pure _;
  new_policy_context = λ policy. IsSafe-pure _;
  destroy = λ context. IsSafe-pure tt;
  copy_image = λ c context dest src opts. IsSafe-pure _;
  if_necessary = λ c operation times h. h;
}

abbrev pub mirror : Mirror memory
mirror = MirrorCopy.service images

pub mirror-IsSafeMirror : IsSafeMirror mirror
mirror-IsSafeMirror = record { run = λ src dest mode. copy-IsSafe images-IsSafeImages src dest }

-- An index without a config, and an image without manifests.
abbrev index : OciSchema
index = record zero_oci_schema { manifests = good ∷ [] }

abbrev image : OciSchema
image = record zero_oci_schema { config = good; layers = good ∷ [] }

abbrev pub readers : Formats
readers = record formats {
  unmarshal_oci = λ text. ok (some (if bytes_eq text (codes "i") then index else image));
}

abbrev g : GlobalOptions
g = record with_tls_verify.global { dir = codes "working-dir"; image_index = codes "release" }

-- The image of a run before.
abbrev pub copied_before : World memory
copied_before = world (
    (release_copy_dir g ++ codes "/index.json", file (codes "i"))
    ∷ (layout_blob (release_copy_dir g) (codes "ab"), file (codes "m"))
    ∷ [])

-- The state in which the collector is called.
abbrev pub called : World memory
called =
    calling readers images (codes "release") [] (record copied_before { opts = with_tls_verify })

abbrev copied : World memory
copied =
    (copy_image_to mirror called.opts.global (release_copy_dir called.opts.global)
      (open_log called).1).1

layout : IsImageLayout memory readers (release_copy_dir called.opts.global) copied.os
unfolding bytes_eq split contains validate check_type complete prepare make_logged or_log modify
    log_failure release_copy_dir copy_image_to copy obtain_policy get_policy_context choose_policy
    policy_source copy_with manifest_type attempt warn_if_used reexec_if_necessary_for_images
    deferred replace_error os_call os_read for_each deref ◌>>=◌
layout = record {
  index = index;
  image = image;
  hex = codes "ab";
  layout = record {
    first = good;
    others = [];
    listed = refl;
    digest = refl;
    digits = (omega arith, (omega arith, tt));
    index_there = record { text = codes "i"; there = refl; decoded = refl };
    image_there = record { text = codes "m"; there = refl; decoded = refl };
  };
  layers = ((codes "ab", refl), tt);
}

pub called_type : called.opts.global.image_index ≡ codes "release"
unfolding bytes_eq split contains validate check_type complete prepare make_logged or_log modify
    log_failure release_copy_dir copy_image_to copy obtain_policy get_policy_context choose_policy
    policy_source copy_with manifest_type attempt warn_if_used reexec_if_necessary_for_images
    deferred replace_error os_call os_read for_each deref ◌>>=◌
called_type = refl

pub called-CopiesLayout : CopiesLayout readers mirror called
unfolding bytes_eq split contains validate check_type complete prepare make_logged or_log modify
    log_failure release_copy_dir copy_image_to copy obtain_policy get_policy_context choose_policy
    policy_source copy_with manifest_type attempt warn_if_used reexec_if_necessary_for_images
    deferred replace_error os_call os_read for_each deref ◌>>=◌
called-CopiesLayout = record {
  operator = λ now h _. absurd (cc);
  release = λ now _ e.
      subst (λ r. IsImageLayout memory readers (release_copy_dir called.opts.global) r.1.os) e
        layout;
}
