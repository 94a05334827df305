-- ===== src/Collector/Keeps.antt =====
-- What `Collect` leaves of the file system.
use golang_imageindex_list.Prelude.{
  Bytes, codes, List, [], ◌∷◌, ◌++◌, Option, ◌≡◌, Bool-cases, inl, inr, not,
}
use golang_imageindex_list.Exec.{Result, ok, err, Exec, lift, ◌>>=◌}
use golang_imageindex_list.Strings.{contains}
use golang_imageindex_list.Os.{Os}
use golang_imageindex_list.World.{World, os_read}
use golang_imageindex_list.Options.{GlobalOptions}
use golang_imageindex_list.Log.Keeps.{
  Keeps, Keeps-pure, Keeps-fail, Keeps-lift, Keeps-deref, Keeps-os_read, Keeps-os_call, Keeps-try,
  Keeps-wrapped, Keeps-log, Keeps-bind, Keeps-if,
}
use golang_imageindex_list.Schema.Oci.{OciManifest, OciSchema}
use golang_imageindex_list.Manifest.Formats.{Formats}
use golang_imageindex_list.Manifest.Untar.{trim_label}
use golang_imageindex_list.Manifest.Untar.Frame.{KeptUnder}
use golang_imageindex_list.Manifest.Documents.{
  get_image_index, get_image_manifest, get_operator_config,
}
use golang_imageindex_list.Manifest.Layers.{is_missing, extract_layers_oci}
use golang_imageindex_list.Manifest.Layers.Laws.{extract_layers_oci-Keeps}
use golang_imageindex_list.Manifest.Service as ManifestService
use golang_imageindex_list.Log.Reports.{logged}
use golang_imageindex_list.Schema.Catalog.{RelatedImage}
use golang_imageindex_list.Collector.Listing.{operators_listed, release_listed, listing_lem}
use mathlib.Core.Path.{subst}
use golang_imageindex_list.Prelude.{sym, refl, ap, ◌∙◌}
use golang_imageindex_list.Mirror.{Mirror}
use golang_imageindex_list.Collector.Paths.{
  docker_protocol, oci_protocol_trimmed, operator_copy_dir, operator_cache_dir, release_manifest,
  release_copy_dir, release_to_dir,
}
use golang_imageindex_list.Collector.Fetch.{
  copy_image_to, first_operator_manifest, fetch_operator, first_release_manifest, logged_index,
  fetch_release,
}
use golang_imageindex_list.Collector.Collect.{
  collect_operator, collect_release, unless_cached, collect_release,
}

-- `P` is kept where a release is copied to and where its layers are extracted to.
pub record IsUntouched {O : Os} (P : O.State → Type 0) (mirror : Mirror O) (g : GlobalOptions)
    : Type 0 where
  pub copy_dir : (s : O.State) → P s → P (O.mkdir_all s (release_copy_dir g)).1
  pub run : Keeps O P (
      mirror.run
        (docker_protocol ++ g.reference)
        (oci_protocol_trimmed ++ release_copy_dir g)
        (codes "copy"))
  pub layers : KeptUnder O P (release_to_dir g) (trim_label release_manifest)

module _ {O : Os} {P : O.State → Type 0} where
  reading-Keeps :
      {A : Type 0} (file : Bytes) (decode : Bytes → Result A)
      → Keeps O P (os_read {O = O} (λ s. O.read_file s file) >>= λ text. lift (decode text))
  reading-Keeps file decode = Keeps-bind _ _ (Keeps-os_read _) (λ text. Keeps-lift (decode text))

  first-Keeps : (ms : List OciManifest) → Keeps O P (first_release_manifest {O = O} ms)
  unfolding first_release_manifest
  first-Keeps [] = Keeps-fail _
  first-Keeps (m ∷ ms) = Keeps-pure m

  logged-Keeps : (r : Result (Option OciSchema)) → Keeps O P (logged_index {O = O} r)
  unfolding logged_index
  logged-Keeps (ok index) = Keeps-pure index
  logged-Keeps (err e) = Keeps-bind _ _ (Keeps-log _ _ _) (λ _. Keeps-fail _)

  extract-Keeps :
      (formats : Formats) (from_path to_path label : Bytes) (oci : Option OciSchema)
      → KeptUnder O P to_path (trim_label label)
      → Keeps O P (extract_layers_oci {O = O} formats from_path to_path label oci)
  extract-Keeps formats from_path to_path label oci kept = record {
    at = λ w p. extract_layers_oci-Keeps formats from_path to_path label kept oci w p;
  }

  pub unless_cached-Keeps :
      (dir : Bytes) (fetch : Exec (World O) (Unit {0}))
      → Keeps O P fetch
      → Keeps O P (unless_cached dir fetch)
  unfolding unless_cached
  unless_cached-Keeps dir fetch k = record {
    at = λ w p. elim (Bool-cases (is_missing (O.stat w.os dir))) [
      | inl absent ↦ rw absent (k.at w p)
      | inr there ↦ rw there ((Keeps-pure {P = P} tt).at w p)
    ];
  }

  -- Whatever holds of the file system and is kept where a release is copied to and where its layers
  -- are extracted to, holds after a release is fetched, however that ends.
  pub fetch_release-Keeps :
      (formats : Formats) (mirror : Mirror O) (g : GlobalOptions)
      → IsUntouched P mirror g
      → Keeps O P (fetch_release (ManifestService.service formats) mirror g)
  unfolding fetch_release copy_image_to get_image_index get_image_manifest
  fetch_release-Keeps formats mirror g u =
      Keeps-bind _ _
        (Keeps-bind _ _ (Keeps-os_call _ u.copy_dir)
          (λ _. Keeps-bind _ _ (Keeps-log _ _ _) (λ _. u.run)))
        (λ _. Keeps-bind _ _ (Keeps-try _ (reading-Keeps _ formats.unmarshal_oci)) (λ found.
          Keeps-bind _ _ (logged-Keeps found) (λ index.
            Keeps-bind _ _ (Keeps-deref index) (λ schema.
              Keeps-bind _ _ (first-Keeps schema.manifests) (λ first.
                Keeps-bind _ _ (Keeps-deref _) (λ part. Keeps-bind _ _ (Keeps-log _ _ _) (λ _.
                  Keeps-bind _ _ (Keeps-wrapped _ _ (reading-Keeps _ formats.unmarshal_oci)) (λ oci.
                    Keeps-bind _ _ (Keeps-deref oci) (λ image.
                      Keeps-bind _ _ (Keeps-log _ _ _)
                        (λ _. extract-Keeps formats _ _ _ oci u.layers))))))))))

pub operators_listed-os :
    {O : Os} (formats : Formats) (g : GlobalOptions) (r : Result (List Bytes)) (w : World O)
    → (operators_listed formats g r w).1.os ≡ w.os
unfolding operators_listed logged
operators_listed-os formats g (ok names) w = refl
operators_listed-os formats g (err e) w = refl

release_listed-os :
    {O : Os} (g : GlobalOptions) (r : Result (List RelatedImage)) (w : World O)
    → (release_listed g r w).1.os ≡ w.os
unfolding release_listed logged
release_listed-os g (ok components) w = refl
release_listed-os g (err e) w = refl

-- `P` is kept where an operator image is copied to and where its layers are extracted to, whatever
-- the label.
pub record IsOperatorUntouched {O : Os} (P : O.State → Type 0) (mirror : Mirror O)
    (g : GlobalOptions) : Type 0 where
  pub copy_dir : (s : O.State) → P s → P (O.mkdir_all s (operator_copy_dir g)).1
  pub run : Keeps O P (
      mirror.run
        (docker_protocol ++ g.reference)
        (oci_protocol_trimmed ++ operator_copy_dir g)
        (codes "copy"))
  pub layers : (label : Bytes) → KeptUnder O P (operator_cache_dir g) (trim_label label)

module _ {O : Os} {P : O.State → Type 0} where
  first_operator-Keeps :
      (g : GlobalOptions) (ms : List OciManifest) → Keeps O P (first_operator_manifest {O = O} g ms)
  unfolding first_operator_manifest
  first_operator-Keeps g [] = Keeps-fail _
  first_operator-Keeps g (m ∷ ms) =
      Keeps-if (not (contains m.digest (codes "sha256"))) _ _ (λ _. Keeps-fail _)
        (λ _. Keeps-pure m)

  fetch_operator-Keeps :
      (formats : Formats) (mirror : Mirror O) (g : GlobalOptions)
      → IsOperatorUntouched P mirror g
      → Keeps O P (fetch_operator (ManifestService.service formats) mirror g)
  unfolding fetch_operator copy_image_to get_image_index get_image_manifest get_operator_config
  fetch_operator-Keeps formats mirror g u =
      Keeps-bind _ _
        (Keeps-bind _ _ (Keeps-os_call _ u.copy_dir)
          (λ _. Keeps-bind _ _ (Keeps-log _ _ _) (λ _. u.run)))
        (λ _. Keeps-bind _ _ (reading-Keeps _ formats.unmarshal_oci) (λ index.
          Keeps-bind _ _ (Keeps-deref index) (λ schema.
            Keeps-bind _ _ (first_operator-Keeps g schema.manifests) (λ first.
              Keeps-bind _ _ (Keeps-deref _) (λ part. Keeps-bind _ _ (Keeps-log _ _ _) (λ _.
                Keeps-bind _ _ (reading-Keeps _ formats.unmarshal_oci) (λ oci.
                  Keeps-bind _ _ (Keeps-deref oci) (λ image.
                    Keeps-bind _ _ (Keeps-deref _) (λ config_part.
                      Keeps-bind _ _ (reading-Keeps _ formats.unmarshal_operator_config) (λ config.
                        Keeps-bind _ _ (Keeps-deref config) (λ ocs.
                          Keeps-bind _ _ (Keeps-log _ _ _)
                            (λ _. extract-Keeps formats _ _ _ oci (u.layers _)))))))))))))

  pub collect_operator-Keeps :
      (formats : Formats) (mirror : Mirror O) (g : GlobalOptions)
      → IsOperatorUntouched P mirror g
      → Keeps O P (collect_operator (ManifestService.service formats) mirror g)
  unfolding collect_operator
  collect_operator-Keeps formats mirror g u =
      Keeps-bind _ _ (unless_cached-Keeps _ _ (fetch_operator-Keeps formats mirror g u)) (λ _.
        record {
          at = λ w p.
              subst P
                (sym (
                  ap (λ now. now.1.os) (listing_lem formats g w).0
                  ∙ operators_listed-os formats g _ w))
                p;
        })

  pub collect_release-Keeps :
      (formats : Formats) (mirror : Mirror O) (g : GlobalOptions)
      → IsUntouched P mirror g
      → Keeps O P (collect_release (ManifestService.service formats) mirror g)
  unfolding collect_release
  collect_release-Keeps formats mirror g u =
      Keeps-bind _ _ (unless_cached-Keeps _ _ (fetch_release-Keeps formats mirror g u)) (λ _.
        record {
          at = λ w p.
              subst P
                (sym (ap (λ now. now.1.os) (listing_lem formats g w).1 ∙ release_listed-os g _ w))
                p;
        })
