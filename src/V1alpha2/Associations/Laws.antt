-- ===== src/V1alpha2/Associations/Laws.antt =====
-- The associations that are valid.
use golang_imageindex_list.Prelude.{
  [], ◌≡◌, ◌≢◌, ◌↔◌, ◌⊎◌, inl, inr, is_empty, empty_cases, if_empty, and_false, not_empty, arith,
}
use golang_imageindex_list.Exec.{ok}
use golang_imageindex_list.V1alpha2.ImageTypes
use golang_imageindex_list.V1alpha2.ImageTypes.Laws.{IsNamed, named_if_valid, valid_if_named}
use golang_imageindex_list.V1alpha2.Associations.{Association, validate}

-- Either child manifests or layers, and not both.
pub data HasChildren (a : Association) : Type 0 where
  manifests : a.manifest_digests ≢ [] → a.layer_digests ≡ [] → HasChildren a
  layers : a.manifest_digests ≡ [] → a.layer_digests ≢ [] → HasChildren a

-- A valid association: one kind of children, a way to name it, and a named type.
pub record IsValid (a : Association) : Type 0 where
  pub children : HasChildren a
  pub designated : (a.id ≢ []) ⊎ (a.tag_symlink ≢ [])
  pub type : IsNamed a.type

valid : (a : Association) → IsValid a → validate a ≡ ok tt
unfolding validate
valid a v =
    let type = valid_if_named a.type v.type in
    elim v.children [
      | manifests m l ↦ elim v.designated [
        | inl i ↦ rw (not_empty _ m, l, not_empty _ i, type)
        | inr t ↦ rw (not_empty _ m, l, not_empty _ t, and_false (is_empty a.id), type)
      ]
      | layers m l ↦ elim v.designated [
        | inl i ↦ rw (m, not_empty _ l, not_empty _ i, type)
        | inr t ↦ rw (m, not_empty _ l, not_empty _ t, and_false (is_empty a.id), type)
      ]
    ]

has_children : (a : Association) → validate a ≡ ok tt → HasChildren a
unfolding validate
has_children a h = elim (empty_cases a.manifest_digests) [
  | inl (e, i) ↦ layers e (λ l. let j = if_empty _ l in ground arith)
  | inr (n, i) ↦
      manifests n
        (elim (empty_cases a.layer_digests) [ inl (f, j) ↦ f | inr (m, j) ↦ absurd (ground arith) ])
]

is_designated : (a : Association) → validate a ≡ ok tt → (a.id ≢ []) ⊎ (a.tag_symlink ≢ [])
unfolding validate
is_designated a h = elim (empty_cases a.id) [
  | inr (n, i) ↦ inl n
  | inl (e, i) ↦ inr (λ t. let j = if_empty _ t in ground arith)
]

has_type : (a : Association) → validate a ≡ ok tt → ImageTypes.validate a.type ≡ ok tt
unfolding validate
has_type a h = ground arith

soundly : (a : Association) → validate a ≡ ok tt → IsValid a
soundly a h = record {
  children = has_children a h;
  designated = is_designated a h;
  type = named_if_valid a.type (has_type a h);
}

-- `Validate` accepts an association exactly if it has child manifests or layers but not both, an
-- identifier or a tag, and one of the seven named types.
pub validate_association_iff : (a : Association) → (validate a ≡ ok tt) ↔ IsValid a
validate_association_iff a = (soundly a, valid a)
