-- ===== src/Collector/Trust.antt =====
-- What `Collect` relies on, of the copies of the mirror component.
use golang_imageindex_list.Prelude.{Bytes, codes, ◌≡◌, All}
use golang_imageindex_list.Exec.{returned}
use golang_imageindex_list.Exec.Safe.{IsSafe}
use golang_imageindex_list.Strings.Splitting.{Lacks}
use golang_imageindex_list.Os.{Os}
use golang_imageindex_list.World.{World}
use golang_imageindex_list.Schema.Oci.{OciSchema}
use golang_imageindex_list.Schema.OperatorConfig.{OperatorConfigSchema}
use golang_imageindex_list.Manifest.Formats.{Formats}
use golang_imageindex_list.Manifest.Layers.Panics.{HasPart}
use golang_imageindex_list.Mirror.{Mirror}
use golang_imageindex_list.Collector.Paths.{operator_copy_dir, release_copy_dir}
use golang_imageindex_list.Collector.Fetch.{copy_image_to}
use golang_imageindex_list.Collector.Follow.{Holds}
use golang_imageindex_list.Collector.Layouts.{IsLayout, sha256, layout_blob}
use golang_imageindex_list.Collector.Branch.{open_log}

pub record IsSafeMirror {O : Os} (mirror : Mirror O) : Type 0 where
  pub run : (src dest mode : Bytes) → IsSafe (mirror.run src dest mode)

-- The directory holds an OCI image layout, and the digests of the layers have a colon.
pub record IsImageLayout (O : Os) (formats : Formats) (dir : Bytes) (s : O.State) : Type 0 where
  pub index : OciSchema
  pub image : OciSchema
  pub hex : Bytes
  pub layout : IsLayout O formats dir s index image hex
  pub layers : All HasPart image.layers

-- Moreover, the config of the image is there.
pub record IsOperatorLayout (O : Os) (formats : Formats) (dir : Bytes) (s : O.State) : Type 0 where
  pub base : IsImageLayout O formats dir s
  pub config : OperatorConfigSchema
  pub config_hex : Bytes
  pub digest : base.image.config.digest ≡ sha256 config_hex
  pub digits : Lacks b':' config_hex
  pub config_there : Holds O s formats.unmarshal_operator_config (layout_blob dir config_hex) config

-- The copy that `Collect` asks for in this state, if it succeeds, leaves such a layout in the
-- directory that it is asked to copy to.
pub record CopiesLayout {O : Os} (formats : Formats) (mirror : Mirror O) (w : World O)
    : Type 0 where
  pub operator :
      (now : World O)
      → w.opts.global.image_index ≡ codes "operator"
      → copy_image_to mirror w.opts.global (operator_copy_dir w.opts.global) (open_log w).1
        ≡ (returned tt, now)
      → IsOperatorLayout O formats (operator_copy_dir w.opts.global) now.os
  pub release :
      (now : World O)
      → w.opts.global.image_index ≡ codes "release"
      → copy_image_to mirror w.opts.global (release_copy_dir w.opts.global) (open_log w).1
        ≡ (returned tt, now)
      → IsImageLayout O formats (release_copy_dir w.opts.global) now.os
