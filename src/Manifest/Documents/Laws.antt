-- ===== src/Manifest/Documents/Laws.antt =====
-- What `GetReleaseSchema` returns.
use golang_imageindex_list.Prelude.{
  Bytes, List, [], ◌∷◌, ◌++◌, map, ◌≡◌, refl, append-nil, append_assoc, sym,
}
use golang_imageindex_list.Exec.{Result, ok, err, outcome, lift, pure, ◌>>=◌}
use golang_imageindex_list.Os.{Os}
use golang_imageindex_list.World.{World}
use golang_imageindex_list.Schema.Release.{Tags, ReleaseSchema}
use golang_imageindex_list.Schema.Catalog.{RelatedImage}
use golang_imageindex_list.Manifest.Formats.{Formats}
use golang_imageindex_list.Manifest.Documents.{or_nothing, collect_images, get_release_schema}

abbrev pub image_of : Tags → RelatedImage
image_of tag = record { name = tag.name; image = tag.from.name }

collect_images-map :
    (tags : List Tags) (found : List RelatedImage)
    → collect_images tags found ≡ found ++ map image_of tags
unfolding collect_images
collect_images-map [] found = sym (append-nil found)
collect_images-map (tag ∷ tags) found = simp (collect_images-map tags, append_assoc)

-- The images of a decoded release: one for each tag, in order.
abbrev pub images_of : Result ReleaseSchema → Result (List RelatedImage)
images_of (ok release) = ok (map image_of release.spec.tags)
images_of (err e) = err e

-- `GetReleaseSchema` changes nothing. It returns an image for each tag of the decoded release, in
-- order, or the error of the decoder; a file that cannot be read is decoded as an empty one, and
-- its own error is lost.
pub get_release_schema_lem :
    {O : Os} (formats : Formats) (path : Bytes) (w : World O)
    → get_release_schema formats path w
      ≡ (outcome (images_of (formats.unmarshal_release (or_nothing (O.read_file w.os path)))), w)
unfolding get_release_schema ◌>>=◌
get_release_schema_lem {O} formats path w =
    decoded (formats.unmarshal_release (or_nothing (O.read_file w.os path)))
  where
    decoded :
        (r : Result ReleaseSchema)
        → (lift r >>= λ release. pure (collect_images release.spec.tags [])) w
          ≡ (outcome (images_of r), w)
    decoded (ok release) = rw (collect_images-map release.spec.tags [])
    decoded (err e) = refl
