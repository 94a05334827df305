-- ===== src/Manifest/Layers/Panics.antt =====
-- Which digests let `ExtractLayersOCI` go on, and which make it panic.
use golang_imageindex_list.Prelude.{
  Bytes, codes, [], none, some, ◌≡◌, ◌⊎◌, ◌↔◌, ◌≢◌, ap, false, refl, true, All, Bool-cases, inl,
  inr, ◌++◌,
}
use golang_imageindex_list.Strings.{contains}
use golang_imageindex_list.Strings.Splitting.{Lacks, split-Lacks, second_part_or_Lacks}
use golang_imageindex_list.Exec.{panicked, fail, ◌>>=◌}
use golang_imageindex_list.Exec.Safe.{
  IsSafe, IsSafe-fail, IsSafe-modify, IsSafe-if, IsSafe-bind, IsSafe-bind_good, IsSafe-for_each,
  Yields-deref,
}
use golang_imageindex_list.Os.{Os}
use golang_imageindex_list.World.{World, info}
use golang_imageindex_list.Log.{say}
use golang_imageindex_list.World.Safe.{IsSafe-os_read}
use golang_imageindex_list.Schema.Oci.{OciManifest, OciSchema}
use golang_imageindex_list.Manifest.Formats.{Formats}
use golang_imageindex_list.Manifest.Untar.Safe.{untar-IsSafe}
use golang_imageindex_list.Manifest.Layers.{
  digest_part, is_missing, extract_layer, extract_layers, extract_layers_oci,
}

-- The digest has a part behind its first colon.
abbrev pub HasPart : OciManifest → Type 0
HasPart m = (part : Bytes) × (digest_part m.digest ≡ some part)

-- A digest has a part behind a colon unless it has no colon.
pub HasPart-or_Lacks : (m : OciManifest) → HasPart m ⊎ Lacks b':' m.digest
HasPart-or_Lacks m = second_part_or_Lacks b':' m.digest

pub digest_part-Lacks : (digest : Bytes) → Lacks b':' digest → digest_part digest ≡ none
digest_part-Lacks digest h = rw (split-Lacks b':' digest h)

module _ {O : Os} (formats : Formats) (from_path to_path label : Bytes) where
  -- A digest that names sha256 and has no colon passes the check and is a panic.
  extract_layer_panics :
      (blob : OciManifest) (w : World O)
      → contains blob.digest (codes "sha256") ≡ true
      → Lacks b':' blob.digest
      → extract_layer formats from_path to_path label blob w ≡ (panicked, w)
  unfolding extract_layer ◌>>=◌
  extract_layer_panics blob w h lacks = rw h (rw (digest_part-Lacks blob.digest lacks))

  extract_layer-IsSafe :
      (blob : OciManifest)
      → HasPart blob
      → IsSafe (extract_layer {O = O} formats from_path to_path label blob)
  unfolding extract_layer
  extract_layer-IsSafe blob (part, e) =
      IsSafe-if (contains blob.digest (codes "sha256")) _ _
        (λ _.
          IsSafe-bind_good {Good = λ _. Unit {0}} _ _ (Yields-deref part e tt)
            (λ p _. IsSafe-bind _ _ (IsSafe-os_read _) (λ f. untar-IsSafe formats f to_path label)))
        (λ _. IsSafe-fail _)

  unnamed_fails :
      (blob : OciManifest) (w : World O)
      → contains blob.digest (codes "sha256") ≡ false
      → (extract_layer formats from_path to_path label blob w).0 ≢ panicked
  unfolding extract_layer fail
  unnamed_fails blob w unnamed h = cc (rw unnamed at h)

  -- The extraction of a layer panics exactly when its digest names sha256 and has no colon: then the
  -- index of the part behind the colon is out of range.
  pub extract_layer_panics_iff :
      (blob : OciManifest) (w : World O)
      → ((extract_layer formats from_path to_path label blob w).0 ≡ panicked)
        ↔ ((contains blob.digest (codes "sha256") ≡ true) × Lacks b':' blob.digest)
  extract_layer_panics_iff blob w = (
    λ h. elim (HasPart-or_Lacks blob) [
      | inl part ↦ absurd ((extract_layer-IsSafe blob part).at w h)
      | inr lacks ↦ elim (Bool-cases (contains blob.digest (codes "sha256"))) [
        | inl named ↦ (named, lacks)
        | inr unnamed ↦ absurd (unnamed_fails blob w unnamed h)
      ]
    ],
    λ (named, lacks). ap (λ r. r.0) (extract_layer_panics blob w named lacks),
  )

  extract_layers-IsSafe :
      (oci : OciSchema)
      → All HasPart oci.layers
      → IsSafe (extract_layers {O = O} formats from_path to_path label (some oci))
  unfolding extract_layers
  extract_layers-IsSafe oci parts =
      IsSafe-bind_good {Good = λ s. s ≡ oci} _ _ (Yields-deref oci refl refl)
        (λ s e. rw e (IsSafe-for_each HasPart oci.layers _ parts extract_layer-IsSafe))

  -- A document that is there, each of whose layers has a digest with a colon, never makes the call
  -- panic.
  pub extract_layers_oci-IsSafe :
      (oci : OciSchema)
      → All HasPart oci.layers
      → IsSafe (extract_layers_oci {O = O} formats from_path to_path label (some oci))
  unfolding extract_layers_oci
  extract_layers_oci-IsSafe oci parts = record {
    at = λ w. elim (Bool-cases (is_missing (O.stat w.os (to_path ++ label)))) [
      | inl absent ↦ rw absent ((extract_layers-IsSafe oci parts).at w)
      | inr there ↦ rw there ((IsSafe-modify (say info (codes "tar exists") [])).at w)
    ];
  }
