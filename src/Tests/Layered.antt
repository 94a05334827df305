-- ===== src/Tests/Layered.antt =====
-- An operator image with two layers, each with the catalog of one operator.
use mathlib.Core.Path.{subst}
use golang_imageindex_list.Prelude.{
  Bytes, codes, List, [], ◌∷◌, ◌++◌, none, some, inl, inr, ◌≡◌, refl, sym, ap, ◌∙◌, false, bytes_eq,
  if◌then◌else◌,
}
use golang_imageindex_list.Strings.{contains, split}
use golang_imageindex_list.Exec.{ok}
use golang_imageindex_list.Schema.Oci.{OciManifest, OciSchema, zero_oci_schema}
use golang_imageindex_list.Options.{GlobalOptions}
use golang_imageindex_list.Manifest.Formats.{Formats, Header, TarItem, entry}
use golang_imageindex_list.Manifest.Untar.{type_dir, type_reg, target, trim_label}
use golang_imageindex_list.Manifest.Untar.Frame.{KeptAt, Targets, under-Targets}
use golang_imageindex_list.Manifest.Layers.Archives.{IsArchive, SameBlobs, LayerTargets, ImageHolds}
use golang_imageindex_list.Collector.Paths.{
  operator_cache_dir, operator_blobs_dir, operator_copy_dir,
}
use golang_imageindex_list.Tests.Memory.{Disk, file, dir}
use golang_imageindex_list.Tests.Posix.{collapse, posix, Apart}
use golang_imageindex_list.Tests.Values.{formats, global, good, digest}

-- The options that `Complete` leaves.
abbrev pub g : GlobalOptions
g = record global { dir = codes "working-dir" }

abbrev pub catalog_header : Header
catalog_header = record { name = codes "configs/op/catalog.json"; typeflag = type_reg }

abbrev first_items : List TarItem
first_items =
    entry (record { name = codes "configs/op"; typeflag = type_dir }) [] none
    ∷ entry catalog_header (codes "{}") none
    ∷ []

abbrev second_items : List TarItem
second_items =
    entry (record { name = codes "configs/other"; typeflag = type_dir }) [] none
    ∷ entry (record { name = codes "configs/other/catalog.json"; typeflag = type_reg }) (codes "[]")
        none
    ∷ []

abbrev second : OciManifest
second = digest (codes "sha256:cd")

abbrev pub image : OciSchema
image = record zero_oci_schema { manifests = good ∷ []; config = good; layers = good ∷ second ∷ [] }

abbrev pub readers : Formats
readers = record formats {
  unmarshal_oci = λ text. ok (some image);
  tar_items = λ stream. if bytes_eq stream (codes "1") then first_items else second_items;
}

-- The image of a run before.
abbrev pub before : Disk
before =
    (operator_copy_dir g ++ codes "/index.json", file (codes "{}"))
    ∷ (operator_blobs_dir g ++ codes "/ab", file (codes "1"))
    ∷ (operator_blobs_dir g ++ codes "/cd", file (codes "2"))
    ∷ []

-- The disk behind the creation of the directories and the log file.
abbrev pub blobs : Disk
blobs =
    (codes "logs/util.log", file [])
    ∷ (codes "working-dir/operator-images", dir)
    ∷ (codes "working-dir/release-images", dir)
    ∷ (codes "logs", dir)
    ∷ (codes "working-dir", dir)
    ∷ before

-- The disk behind the copy of the image.
abbrev pub disk : Disk
disk = (operator_copy_dir g, dir) ∷ blobs

-- No blob is below the directory that the layers are extracted to.
blob_apart :
    (name part : Bytes)
    → bytes_eq
        (collapse (operator_blobs_dir g ++ codes "/" ++ part))
        (collapse (operator_cache_dir g ++ codes "/" ++ name))
      ≡ false
unfolding operator_blobs_dir operator_cache_dir bytes_eq
blob_apart name part = refl

abbrev Archive : OciManifest → List TarItem → Type 0
Archive = IsArchive posix readers (operator_blobs_dir g) disk

abbrev Same : Disk → Type 0
Same = SameBlobs posix readers (operator_blobs_dir g) disk image.layers

blobs-KeptAt : (h : Header) → KeptAt posix Same (target (operator_cache_dir g) h)
blobs-KeptAt h = record {
  mkdir_all =
      λ s same blob among part split. rw (blob_apart h.name part) (same blob among part split);
  create = λ s same blob among part split. rw (blob_apart h.name part) (same blob among part split);
  copy = λ b s same blob among part split. rw (blob_apart h.name part) (same blob among part split);
}

first-Archive : Archive good first_items
unfolding split bytes_eq operator_blobs_dir operator_copy_dir
first-Archive = record {
  part = codes "ab";
  gz = codes "1";
  stream = codes "1";
  split = refl;
  there = refl;
  unzipped = refl;
  read = refl;
}

second_read : (items : List TarItem) → Archive second items → items ≡ second_items
unfolding split bytes_eq operator_blobs_dir operator_copy_dir
second_read items a =
    let part : codes "cd" ≡ a.part = cc in
    let there : ok (codes "2") ≡ ok a.gz =
      subst (λ p. posix.open_file disk (operator_blobs_dir g ++ codes "/" ++ p) ≡ ok a.gz)
        (sym part) a.there in
    let stream : codes "2" ≡ a.stream = cc in a.read ∙ ap readers.tar_items (sym stream)

second-Apart :
    (items : List TarItem)
    → Archive second items
    → Targets
        (λ p. Apart p (target (operator_cache_dir g) catalog_header))
        (operator_cache_dir g)
        (trim_label (codes "/configs/"))
        items
unfolding Targets trim_label contains operator_cache_dir bytes_eq
second-Apart items a =
    subst
      (Targets (λ p. Apart p (target (operator_cache_dir g) catalog_header)) (operator_cache_dir g)
        (trim_label (codes "/configs/")))
      (sym (second_read items a)) ((λ _. refl), ((λ _. refl), tt))

pub holds_catalog :
    ImageHolds posix readers
      (operator_blobs_dir g)
      disk
      Apart
      (operator_cache_dir g)
      (trim_label (codes "/configs/"))
      image.layers
      catalog_header
      (codes "{}")
unfolding trim_label contains
holds_catalog = record {
  before = [];
  layer = good;
  later = second ∷ [];
  order = refl;
  items = first_items;
  archive = first-Archive;
  file = record {
    before = entry (record { name = codes "configs/op"; typeflag = type_dir }) [] none ∷ [];
    later = [];
    order = refl;
    file = record { regular = refl; matches = refl };
    apart = unfold Targets in tt;
  };
  apart = later_apart;
  blobs = λ blob among items a.
      under-Targets (operator_cache_dir g) _ (record { at = λ h m. blobs-KeptAt h }) items;
}
  where
    later_apart :
        LayerTargets posix readers
          (operator_blobs_dir g)
          disk
          (λ p. Apart p (target (operator_cache_dir g) catalog_header))
          (operator_cache_dir g)
          (trim_label (codes "/configs/"))
          (second ∷ [])
    later_apart blob (inl e) items a = second-Apart items (subst (λ b. Archive b items) e a)
    later_apart blob (inr m) items a = absurd m
