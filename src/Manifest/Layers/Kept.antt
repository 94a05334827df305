-- ===== src/Manifest/Layers/Kept.antt =====
-- What the extraction of an image's layers leaves, by the entries of their archives.
use golang_imageindex_list.Prelude.{
  Bytes, List, [], ◌∷◌, ◌++◌, some, refl, Bool-cases, inl, inr, Among,
}
use golang_imageindex_list.Exec.{
  Outcome, returned, failed, panicked, Exec, continue, for_each, pure, deref, ◌>>=◌,
}
use golang_imageindex_list.Os.{Os}
use golang_imageindex_list.World.{World}
use golang_imageindex_list.Schema.Oci.{OciManifest, OciSchema}
use golang_imageindex_list.Manifest.Formats.{Formats}
use golang_imageindex_list.Manifest.Untar.{trim_label}
use golang_imageindex_list.Manifest.Untar.Frame.{KeptAt}
use golang_imageindex_list.Manifest.Layers.{is_missing, extract_layers, extract_layers_oci}
use golang_imageindex_list.Manifest.Layers.Archives.{SameBlobs, LayerTargets}
use golang_imageindex_list.Manifest.Layers.Contents.{step, step_kept}

module _ {O : Os} (formats : Formats) (from_path to_path label : Bytes) (start : O.State)
    (all : List OciManifest) (P : O.State → Type 0)
    (untouched : LayerTargets O formats from_path start
      (KeptAt O (SameBlobs O formats from_path start all))
      to_path
      (trim_label label)
      all)
    (kept : LayerTargets O formats from_path start
      (KeptAt O P)
      to_path
      (trim_label label)
      all) where
  behind :
      (r : Outcome (Unit {0})) (now : World O) (rest : Exec (World O) (Unit {0}))
      → P now.os
      → P (rest now).1.os
      → P (continue r (λ _. rest) now).1.os
  behind (returned _) now rest p q = q
  behind (failed e) now rest p q = p
  behind panicked now rest p q = p

  loop_kept :
      (layers : List OciManifest)
      → ((blob : OciManifest) → Among blob layers → Among blob all)
      → (w : World O) → SameBlobs O formats from_path start all w.os
      → P w.os
      → P (for_each layers (step formats from_path to_path label) w).1.os
  unfolding for_each pure ◌>>=◌
  loop_kept [] within w same p = p
  loop_kept (blob ∷ layers) within w same p =
      let m = step {O = O} formats from_path to_path label blob in
      let among = within blob (inl refl) in
      let q =
        step_kept formats from_path to_path label start all P blob w among same (kept blob among)
          p in
      behind (m w).0 (m w).1 (for_each layers (step formats from_path to_path label)) q (
        loop_kept layers (λ b i. within b (inr i)) (m w).1
          (step_kept formats from_path to_path label start all
            (SameBlobs O formats from_path start all) blob w among same (untouched blob among) same)
          q)

module _ {O : Os} (formats : Formats) (from_path to_path label : Bytes) (image : OciSchema)
    (P : O.State → Type 0) (w : World O) where
  -- What is kept at each path that a matching entry of the archives of an image goes to holds after
  -- its extraction, however that ends, if no entry goes to a blob.
  pub extract_layers_oci_kept :
      LayerTargets O formats from_path w.os
        (KeptAt O (SameBlobs O formats from_path w.os image.layers))
        to_path
        (trim_label label)
        image.layers
      → LayerTargets O formats from_path w.os (KeptAt O P) to_path (trim_label label) image.layers
      → P w.os
      → P (extract_layers_oci formats from_path to_path label (some image) w).1.os
  unfolding extract_layers_oci extract_layers deref pure ◌>>=◌
  extract_layers_oci_kept untouched kept p =
      elim (Bool-cases (is_missing (O.stat w.os (to_path ++ label)))) [
        | inl absent ↦ rw absent (
            loop_kept formats from_path to_path label w.os image.layers P untouched kept
              image.layers (λ b i. i) w (λ b i part split. refl) p)
        | inr there ↦ rw there p
      ]
