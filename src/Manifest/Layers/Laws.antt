-- ===== src/Manifest/Layers/Laws.antt =====
-- What `ExtractLayersOCI` does: nothing when the artifact is there, and the layers in order, up to
-- the first one with a digest of another kind.
use golang_imageindex_list.Prelude.{
  Bytes, codes, List, [], ◌∷◌, ◌++◌, ap, ◌∙◌, refl, none, Option, some, ◌≡◌, false, Bool-cases, inl,
  inr, if◌then◌else◌, sym,
}
use golang_imageindex_list.Strings.{contains}
use golang_imageindex_list.Fmt.{sprintf}
use golang_imageindex_list.Exec.{Exec, returned, modify, pure, panic, fail, for_each, ◌>>=◌, ◌>>◌}
use golang_imageindex_list.Exec.Laws.{bind_assoc, deref-bind}
use golang_imageindex_list.Os.{Os}
use golang_imageindex_list.World.{World, info}
use golang_imageindex_list.Log.{say}
use golang_imageindex_list.Log.Keeps.{
  Keeps, Keeps-bind, Keeps-if, Keeps-fail, Keeps-deref, Keeps-os_read, Keeps-for_each, Keeps-log,
}
use golang_imageindex_list.Schema.Oci.{OciManifest, OciSchema}
use golang_imageindex_list.Manifest.Formats.{Formats}
use golang_imageindex_list.Manifest.Untar.{trim_label}
use golang_imageindex_list.Manifest.Untar.Frame.{KeptUnder, untar-Keeps}
use golang_imageindex_list.Manifest.Layers.{
  is_missing, extract_layer, extract_layers, extract_layers_oci,
}

-- The message about a digest of another kind.
abbrev pub bad_digest : OciManifest → Bytes
bad_digest blob = sprintf (codes "the digest format is not correct %s ") (blob.digest ∷ [])

-- The layers in front of the first one whose digest does not name sha256.
unfoldable pub named : List OciManifest → List OciManifest
named [] = []
named (blob ∷ layers) =
    let rest = named layers in if contains blob.digest (codes "sha256") then blob ∷ rest else []

-- What stands at the end of these: the error of the first other digest, or nothing.
pub ending : {O : Os} → List OciManifest → Exec (World O) (Unit {0})
ending [] = pure tt
ending (blob ∷ layers) =
    let rest = ending layers in
    if contains blob.digest (codes "sha256") then rest else fail (bad_digest blob)

-- What is done where the artifact is missing.
pub extraction :
    {O : Os} → Formats → Bytes → Bytes → Bytes → Option OciSchema → Exec (World O) (Unit {0})
unfolding named ending
extraction formats from_path to_path label none = panic
extraction formats from_path to_path label (some oci) =
    for_each (named oci.layers) (extract_layer formats from_path to_path label) >> ending oci.layers

module _ {O : Os} (formats : Formats) (from_path to_path label : Bytes) where
  bad_layer :
      (blob : OciManifest)
      → contains blob.digest (codes "sha256") ≡ false
      → extract_layer {O = O} formats from_path to_path label blob ≡ fail (bad_digest blob)
  unfolding extract_layer
  bad_layer blob h = rw h

  loop_split :
      (layers : List OciManifest)
      → for_each layers (extract_layer {O = O} formats from_path to_path label)
        ≡ (for_each (named layers) (extract_layer formats from_path to_path label) >> ending layers)
  unfolding for_each named ending
  loop_split [] = unfold ◌>>=◌ in refl
  loop_split (blob ∷ layers) = elim (Bool-cases (contains blob.digest (codes "sha256"))) [
    | inl good ↦ rw good (
        ap (λ m. extract_layer formats from_path to_path label blob >> m) (loop_split layers)
        ∙ sym (bind_assoc _ _ _))
    | inr bad ↦ rw (bad, bad_layer blob bad) (unfold ◌>>=◌ in refl)
  ]

  extraction_of :
      (oci : Option OciSchema)
      → extract_layers {O = O} formats from_path to_path label oci
        ≡ extraction formats from_path to_path label oci
  unfolding extract_layers extraction
  extraction_of none = unfold ◌>>=◌ in refl
  extraction_of (some oci) = deref-bind oci _ ∙ loop_split oci.layers

  -- `ExtractLayersOCI` on every branch. If `os.Stat` does not say that the artifact is missing, also
  -- if it fails otherwise, it succeeds with no effect but a line in the log. If it does, a document
  -- that is not there is a panic; otherwise the layers in front of the first one whose digest does
  -- not name sha256 are extracted, in order, and then the call fails with that digest, if there is
  -- one; the layers behind it are not looked at.
  pub extract_layers_oci_lem :
      (oci : Option OciSchema) (w : World O)
      → extract_layers_oci formats from_path to_path label oci w ≡ (
          if is_missing (O.stat w.os (to_path ++ label))
          then extraction formats from_path to_path label oci w
          else (returned tt, say info (codes "tar exists") [] w))
  unfolding extract_layers_oci modify
  extract_layers_oci_lem oci w = rw (extraction_of oci)

  pub extract_layer-Keeps :
      {P : O.State → Type 0}
      → KeptUnder O P to_path (trim_label label)
      → (blob : OciManifest) → Keeps O P (extract_layer formats from_path to_path label blob)
  unfolding extract_layer
  extract_layer-Keeps kept blob =
      Keeps-if (contains blob.digest (codes "sha256")) _ _
        (λ _. Keeps-bind _ _ (Keeps-deref _) (λ part.
          Keeps-bind _ _ (Keeps-os_read _) (λ f. untar-Keeps formats to_path label kept f)))
        (λ _. Keeps-fail _)

  extract_layers-Keeps :
      {P : O.State → Type 0}
      → KeptUnder O P to_path (trim_label label)
      → (oci : Option OciSchema) → Keeps O P (extract_layers formats from_path to_path label oci)
  unfolding extract_layers
  extract_layers-Keeps kept oci =
      Keeps-bind _ _ (Keeps-deref oci)
        (λ schema. Keeps-for_each schema.layers _ (extract_layer-Keeps kept))

  -- Whatever holds of the file system and is kept by writing at paths `to_path/name`, where the
  -- name contains the label without its separators, holds after the call, however it ends.
  pub extract_layers_oci-Keeps :
      {P : O.State → Type 0}
      → KeptUnder O P to_path (trim_label label)
      → (oci : Option OciSchema) (w : World O) → P w.os
      → P (extract_layers_oci formats from_path to_path label oci w).1.os
  unfolding extract_layers_oci
  extract_layers_oci-Keeps {P} kept oci w p =
      elim (Bool-cases (is_missing (O.stat w.os (to_path ++ label)))) [
        | inl absent ↦ rw absent ((extract_layers-Keeps kept oci).at w p)
        | inr there ↦ rw there ((Keeps-log {P = P} info (codes "tar exists") []).at w p)
      ]
