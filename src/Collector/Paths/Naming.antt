-- ===== src/Collector/Paths/Naming.antt =====
-- The directory that an image reference names.
use golang_imageindex_list.Prelude.{
  ℕ, Bytes, [], ◌∷◌, ◌++◌, ◌≡◌, ◌≢◌, refl, map, arith, ◌==◌, Bool-cases, inl, inr, All-append,
}
use mathlib.Core.List.{map-append}
use golang_imageindex_list.Strings.{split}
use golang_imageindex_list.Strings.Splitting.{Lacks, split-Lacks, split_two}
use golang_imageindex_list.Strings.Replacing.{exchange, replace_all-map}
use golang_imageindex_list.Collector.Paths.{last_part, image_index_dir}

-- The last part of a split is what stands behind the last separator.
last_part-split : (sep : ℕ) (p s : Bytes) → Lacks sep s → last_part (split (p ++ sep ∷ s) sep) ≡ s
unfolding split last_part
last_part-split sep [] s h = rw (split-Lacks sep s h) (ground arith)
last_part-split sep (c ∷ p) s h =
    let (a, b, rest, e) = split_two sep p s in
    let ih = rw e at (last_part-split sep p s h) in
    elim (Bool-cases (c == sep)) [ inl hit ↦ rw (hit, e) ih | inr miss ↦ rw (miss, e) ih ]

exchange-Lacks : (a b : ℕ) (s : Bytes) → Lacks a s → map (exchange a b) s ≡ s
exchange-Lacks a b [] h = refl
exchange-Lacks a b (c ∷ s) (hc, hs) = rw (exchange-Lacks a b s hs) (ground arith)

Lacks-exchange : (a b : ℕ) (s : Bytes) → a ≢ b → Lacks a (map (exchange a b) s)
Lacks-exchange a b [] h = tt
Lacks-exchange a b (c ∷ s) h = (ground arith, Lacks-exchange a b s h)

-- A reference `repository/name:tag`, whatever the repository, names the directory `name/tag`.
image_index_dir-name_tag :
    (repository name tag : Bytes)
    → Lacks b'/' name
    → Lacks b':' name
    → Lacks b'/' tag
    → Lacks b':' tag
    → image_index_dir (repository ++ b'/' ∷ (name ++ b':' ∷ tag)) ≡ name ++ b'/' ∷ tag
unfolding image_index_dir
image_index_dir-name_tag repository name tag h1 h2 h3 h4 =
    rw
      (last_part-split b'/' repository (name ++ b':' ∷ tag)
        (All-append (λ c. c ≢ b'/') name (b':' ∷ tag) h1 (omega arith, h3)))
      (simp (
        replace_all-map,
        map-append,
        exchange-Lacks b':' b'/' name h2,
        exchange-Lacks b':' b'/' tag h4,
      ))

-- No colon is left in the directory of an image, whatever the reference.
image_index_dir-Lacks : (reference : Bytes) → Lacks b':' (image_index_dir reference)
unfolding image_index_dir
image_index_dir-Lacks reference =
    rw replace_all-map (Lacks-exchange b':' b'/' (last_part (split reference b'/')) (omega arith))
