-- ===== src/Manifest/Layers/Contents.antt =====
-- What can be read of the files that `ExtractLayersOCI` extracts: those of the last layer that has
-- them.
use mathlib.Core.Path.{subst}
use golang_imageindex_list.Prelude.{
  Bytes, codes, List, [], ◌∷◌, ◌++◌, ◌≡◌, refl, sym, ◌∙◌, Bool-cases, Option-cases, inl, inr, Among,
}
use golang_imageindex_list.Strings.{contains}
use golang_imageindex_list.Exec.{
  ok, Result-cases, Exec, returned, deref, pure, fail, for_each, ◌>>=◌,
}
use golang_imageindex_list.Exec.Laws.{sequence_returned}
use golang_imageindex_list.Os.{Os}
use golang_imageindex_list.Os.Files.{IsFileSystem}
use golang_imageindex_list.World.{World, os_read}
use golang_imageindex_list.Schema.Oci.{OciManifest}
use golang_imageindex_list.Manifest.Formats.{Formats, Header, TarItem}
use golang_imageindex_list.Manifest.Untar.{target, trim_label, untar}
use golang_imageindex_list.Manifest.Untar.Frame.{KeptAt, Targets, untar_loop-Keeps}
use golang_imageindex_list.Manifest.Untar.Contents.{HoldsFile, Apart-Targets, untar-contents}
use golang_imageindex_list.Manifest.Layers.{digest_part, extract_layer}
use golang_imageindex_list.Manifest.Layers.Archives.{IsArchive, SameBlobs, LayerTargets}

module _ {O : Os} (formats : Formats) (from_path to_path label : Bytes) where
  abbrev pub step : OciManifest → Exec (World O) (Unit {0})
  step = extract_layer formats from_path to_path label

  module _ (P : O.State → Type 0) where
    untar_kept :
        (gz : Bytes) (w : World O)
        → ((stream : Bytes)
            → formats.gzip_reader gz ≡ ok stream
            → Targets (KeptAt O P) to_path (trim_label label) (formats.tar_items stream))
        → P w.os
        → P (untar formats gz to_path label w).1.os
    unfolding untar ◌>>=◌
    untar_kept gz w kept p = elim (Result-cases (formats.gzip_reader gz)) [
      | inl (stream, e) ↦ rw e (
          (untar_loop-Keeps to_path (trim_label label) (formats.tar_items stream)
              (kept stream e)).at
            w p)
      | inr (d, e) ↦ rw e p
    ]

    -- What is kept at the paths that the entries of the layer's archive go to is kept by the layer.
    layer_kept :
        (blob : OciManifest) (w : World O)
        → ((items : List TarItem)
            → IsArchive O formats from_path w.os blob items
            → Targets (KeptAt O P) to_path (trim_label label) items)
        → P w.os
        → P (step blob w).1.os
    unfolding extract_layer deref os_read ◌>>=◌
    layer_kept blob w kept p = elim (Bool-cases (contains blob.digest (codes "sha256"))) [
      | inl named ↦ rw named (elim (Option-cases (digest_part blob.digest)) [
        | inl unsplit ↦ rw unsplit p
        | inr (part, split) ↦
            rw split (elim (Result-cases (O.open_file w.os (from_path ++ codes "/" ++ part))) [
              | inl (gz, e) ↦ rw e (
                  untar_kept gz w
                    (λ stream unzipped. kept _ (record {
                      part = part;
                      gz = gz;
                      stream = stream;
                      split = split;
                      there = e;
                      unzipped = unzipped;
                      read = refl;
                    }))
                    p)
              | inr (d, e) ↦ rw e p
            ])
      ])
      | inr other ↦ rw other p
    ]

module _ {O : Os} (formats : Formats) (from_path to_path label : Bytes) (start : O.State)
    (all : List OciManifest) where
  -- A blob is as at the start, so its archive is.
  archive_at_start :
      (blob : OciManifest) (s : O.State) (items : List TarItem)
      → Among blob all
      → SameBlobs O formats from_path start all s
      → IsArchive O formats from_path s blob items
      → IsArchive O formats from_path start blob items
  archive_at_start blob s items among same a = record {
    part = a.part;
    gz = a.gz;
    stream = a.stream;
    split = a.split;
    there = sym (same blob among a.part a.split) ∙ a.there;
    unzipped = a.unzipped;
    read = a.read;
  }

  pub step_kept :
      (P : O.State → Type 0) (blob : OciManifest) (w : World O)
      → Among blob all
      → SameBlobs O formats from_path start all w.os
      → ((items : List TarItem)
          → IsArchive O formats from_path start blob items
          → Targets (KeptAt O P) to_path (trim_label label) items)
      → P w.os
      → P (step formats from_path to_path label blob w).1.os
  step_kept P blob w among same kept p =
      layer_kept formats from_path to_path label P blob w
        (λ items a. kept items (archive_at_start blob w.os items among same a)) p

  module _
      (untouched : LayerTargets O formats from_path start
        (KeptAt O (SameBlobs O formats from_path start all))
        to_path
        (trim_label label)
        all) where
    later_kept :
        (P : O.State → Type 0) (layers : List OciManifest)
        → ((blob : OciManifest) → Among blob layers → Among blob all)
        → LayerTargets O formats from_path start (KeptAt O P) to_path (trim_label label) layers
        → (w : World O) → SameBlobs O formats from_path start all w.os
        → P w.os
        → (for_each layers (step formats from_path to_path label) w).0 ≡ returned tt
        → P (for_each layers (step formats from_path to_path label) w).1.os
    unfolding for_each pure
    later_kept P [] within kept w same p done = p
    later_kept P (blob ∷ layers) within kept w same p done =
        let m = step {O = O} formats from_path to_path label blob in
        let among = within blob (inl refl) in
        let (made, now) =
          sequence_returned m (for_each layers (step formats from_path to_path label)) w done in
        subst (λ r. P r.1.os) (sym now)
          (later_kept P layers (λ b i. within b (inr i)) (λ b i. kept b (inr i)) (m w).1
            (step_kept (SameBlobs O formats from_path start all) blob w among same
              (untouched blob among) same)
            (step_kept P blob w among same (kept blob (inl refl)) p)
            (subst (λ r. r.0 ≡ returned tt) now done))

    step_same :
        (blob : OciManifest) (w : World O)
        → Among blob all
        → SameBlobs O formats from_path start all w.os
        → SameBlobs O formats from_path start all (step formats from_path to_path label blob w).1.os
    step_same blob w among same =
        step_kept (SameBlobs O formats from_path start all) blob w among same (untouched blob among)
          same

  module _ {Apart : Bytes → Bytes → Type 0} (files : IsFileSystem O Apart) (h : Header)
      (content : Bytes) where
    layer_contents :
        (blob : OciManifest) (items : List TarItem)
        → IsArchive O formats from_path start blob items
        → Among blob all
        → HoldsFile Apart to_path (trim_label label) items h content
        → (w : World O) → SameBlobs O formats from_path start all w.os
        → (step formats from_path to_path label blob w).0 ≡ returned tt
        → O.read_file (step formats from_path to_path label blob w).1.os (target to_path h)
          ≡ ok content
    unfolding extract_layer deref os_read ◌>>=◌
    layer_contents blob items a among holds w same done =
        let there = same blob among a.part a.split ∙ a.there in
        elim (Bool-cases (contains blob.digest (codes "sha256"))) [
          | inl named ↦
              rw (named, a.split, there)
                (untar-contents files formats to_path label h content a.gz a.stream a.unzipped
                  (subst (λ items. HoldsFile Apart to_path (trim_label label) items h content)
                    a.read holds)
                  w (rw (named, a.split, there) at done))
          | inr other ↦ absurd (unfold fail in cc (rw other at done))
        ]

    pub loop_contents :
        (untouched : LayerTargets O formats from_path start
          (KeptAt O (SameBlobs O formats from_path start all))
          to_path
          (trim_label label)
          all)
        (before : List OciManifest) (blob : OciManifest) (later : List OciManifest)
        (items : List TarItem)
        → ((b : OciManifest) → Among b (before ++ blob ∷ later) → Among b all)
        → IsArchive O formats from_path start blob items
        → HoldsFile Apart to_path (trim_label label) items h content
        → LayerTargets O formats from_path start
            (λ p. Apart p (target to_path h))
            to_path
            (trim_label label)
            later
        → (w : World O) → SameBlobs O formats from_path start all w.os
        → (for_each (before ++ blob ∷ later) (step formats from_path to_path label) w).0
          ≡ returned tt
        → O.read_file
            (for_each (before ++ blob ∷ later) (step formats from_path to_path label) w).1.os
            (target to_path h)
          ≡ ok content
    unfolding for_each
    loop_contents untouched [] blob later items within a holds apart w same done =
        let m = step {O = O} formats from_path to_path label blob in
        let among = within blob (inl refl) in
        let (made, now) =
          sequence_returned m (for_each later (step formats from_path to_path label)) w done in
        subst (λ r. O.read_file r.1.os (target to_path h) ≡ ok content) (sym now)
          (later_kept untouched (λ s. O.read_file s (target to_path h) ≡ ok content) later
            (λ b i. within b (inr i))
            (λ b i items archive.
              Apart-Targets files to_path (trim_label label) (target to_path h) content items
                (apart b i items archive))
            (m w).1 (step_same untouched blob w among same)
            (layer_contents blob items a among holds w same made)
            (subst (λ r. r.0 ≡ returned tt) now done))
    loop_contents untouched (k ∷ before) blob later items within a holds apart w same done =
        let m = step {O = O} formats from_path to_path label k in
        let rest = for_each (before ++ blob ∷ later) (step formats from_path to_path label) in
        let (made, now) = sequence_returned m rest w done in
        subst (λ r. O.read_file r.1.os (target to_path h) ≡ ok content) (sym now)
          (loop_contents untouched before blob later items (λ b i. within b (inr i)) a holds apart
            (m w).1 (step_same untouched k w (within k (inl refl)) same)
            (subst (λ r. r.0 ≡ returned tt) now done))
