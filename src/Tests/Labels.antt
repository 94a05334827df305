-- ===== src/Tests/Labels.antt =====
-- The theorem about a label that names another directory, at an image that keeps its catalogs in
-- the directory `catalog`.
use mathlib.Core.Path.{subst}
use golang_imageindex_list.Prelude.{
  Bool, true, Bytes, codes, List, [], ◌∷◌, ◌++◌, none, some, ◌≡◌, ◌≢◌, refl, sym, false, bytes_eq,
}
use golang_imageindex_list.Strings.{contains, has_prefix, split}
use golang_imageindex_list.Exec.{ok, err, returned, pure, ◌>>=◌}
use golang_imageindex_list.World.{World, os_call}
use golang_imageindex_list.Schema.Oci.{OciManifest}
use golang_imageindex_list.Schema.OperatorConfig.{OperatorConfigSchema}
use golang_imageindex_list.Mirror.{Mirror}
use golang_imageindex_list.Manifest.Formats.{Formats, Header, TarItem, entry}
use golang_imageindex_list.Manifest.Untar.{type_dir, type_reg, target, trim_label}
use golang_imageindex_list.Manifest.Untar.Frame.{KeptAt, Targets}
use golang_imageindex_list.Manifest.Layers.Archives.{IsArchive, SameBlobs, LayerTargets}
use golang_imageindex_list.Manifest.Service as ManifestService
use golang_imageindex_list.Collector.Paths.{
  operator_copy_dir, operator_blob, operator_blobs_dir, operator_cache_dir, configs_dir,
}
use golang_imageindex_list.Collector.Fetch.{copy_image_to}
use golang_imageindex_list.Collector.Collect.{collect_operator}
use golang_imageindex_list.Collector.Follow.{Holds, IsCopied}
use golang_imageindex_list.Collector.Label.{IsUnlistable, label_unlisted}
use golang_imageindex_list.Tests.Memory.{Disk, Node, file, under}
use golang_imageindex_list.Tests.Tree.{tree, inhabited, names_of}
use golang_imageindex_list.Tests.Values.{formats, options, global, document, operator_config, good}

abbrev config : OperatorConfigSchema
config = record operator_config {
  config = record operator_config.config {
    labels = record operator_config.config.labels {
      operators_operatorframework_io_index_configs_v1 = codes "/catalog/";
    };
  };
}

abbrev directory : Header
directory = record { name = codes "catalog/op"; typeflag = type_dir }

abbrev catalog : Header
catalog = record { name = codes "catalog/op/catalog.json"; typeflag = type_reg }

abbrev items : List TarItem
items = entry directory [] none ∷ entry catalog (codes "{}") none ∷ []

abbrev readers : Formats
readers = record formats {
  unmarshal_operator_config = λ text. ok (some config);
  tar_items = λ stream. items;
}

abbrev idle : Mirror tree
idle = record { run = λ src dest mode. pure tt }

abbrev start : World tree
start = record {
  os =
      (operator_copy_dir global ++ codes "/index.json", file (codes "{}"))
      ∷ (operator_blob global (codes "ab"), file (codes "{}"))
      ∷ [];
  opts = options;
  level = codes "info";
  log = [];
  stdout = [];
}

abbrev copied : World tree
copied = (copy_image_to idle global (operator_copy_dir global) start).1

documents :
    IsCopied tree readers
      (operator_copy_dir global)
      (operator_blob global)
      copied.os
      document
      document
      (codes "ab")
unfolding bytes_eq split operator_copy_dir operator_blob copy_image_to os_call ◌>>=◌
documents = record {
  first = good;
  others = [];
  listed = refl;
  split = refl;
  index_there = record { text = codes "{}"; there = refl; decoded = refl };
  image_there = record { text = codes "{}"; there = refl; decoded = refl };
}

config_there :
    Holds tree copied.os readers.unmarshal_operator_config
      (operator_blob global (codes "ab"))
      config
unfolding bytes_eq operator_copy_dir operator_blob copy_image_to os_call ◌>>=◌
config_there = record { text = codes "{}"; there = refl; decoded = refl }

abbrev Unlistable : Disk → Type 0
Unlistable = IsUnlistable tree global

still-Unlistable :
    (p : Bytes) (n : Node) (s : Disk)
    → under (configs_dir global) p ≡ false
    → Unlistable s
    → Unlistable ((p, n) ∷ s)
unfolding inhabited
still-Unlistable p n s apart (e, h) =
    (e, rw apart (by_names (inhabited (configs_dir global) s) _ _ e h))
  where
    by_names :
        (b : Bool) (names others : List Bytes) (e : Bytes)
        → names_of b names ≡ err e
        → names_of b others ≡ err e
    by_names true names others e h = absurd cc
    by_names false names others e h = h

apart-KeptAt :
    (h : Header)
    → under (configs_dir global) (target (operator_cache_dir global) h) ≡ false
    → KeptAt tree Unlistable (target (operator_cache_dir global) h)
apart-KeptAt h apart = record {
  mkdir_all = λ s. still-Unlistable _ _ s apart;
  create = λ s. still-Unlistable _ _ s apart;
  copy = λ b s. still-Unlistable _ _ s apart;
}

abbrev Archive : OciManifest → List TarItem → Type 0
Archive = IsArchive tree readers (operator_blobs_dir global) copied.os

Unlistable-kept :
    LayerTargets tree readers
      (operator_blobs_dir global)
      copied.os
      (KeptAt tree Unlistable)
      (operator_cache_dir global)
      (trim_label (codes "/catalog/"))
      document.layers
unfolding Targets trim_label contains bytes_eq has_prefix operator_cache_dir configs_dir
Unlistable-kept blob among found a =
    subst
      (Targets (KeptAt tree Unlistable) (operator_cache_dir global)
        (trim_label (codes "/catalog/")))
      (sym a.read) ((λ _. apart-KeptAt directory refl), ((λ _. apart-KeptAt catalog refl), tt))

blobs_kept :
    LayerTargets tree readers
      (operator_blobs_dir global)
      copied.os
      (KeptAt tree (SameBlobs tree readers (operator_blobs_dir global) copied.os document.layers))
      (operator_cache_dir global)
      (trim_label (codes "/catalog/"))
      document.layers
unfolding Targets trim_label contains bytes_eq has_prefix operator_cache_dir operator_blobs_dir
blobs_kept blob among found a =
    subst
      (Targets
        (KeptAt tree (SameBlobs tree readers (operator_blobs_dir global) copied.os document.layers))
        (operator_cache_dir global) (trim_label (codes "/catalog/")))
      (sym a.read)
      (
        (λ _. record { mkdir_all = λ s p. p; create = λ s p. p; copy = λ b s p. p }),
        ((λ _. record { mkdir_all = λ s p. p; create = λ s p. p; copy = λ b s p. p }), tt),
      )

label_unlisted_example :
    (collect_operator (ManifestService.service readers) idle global start).0 ≢ returned tt
unfolding documents contains split bytes_eq has_prefix inhabited operator_cache_dir configs_dir
    operator_copy_dir operator_blob copy_image_to os_call ◌>>=◌
label_unlisted_example =
    label_unlisted readers idle global start copied document document (codes "ab") config
      (codes "ab") refl refl documents refl refl config_there blobs_kept Unlistable-kept
      (codes "no such file or directory", refl)
