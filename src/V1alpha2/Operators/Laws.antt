-- ===== src/V1alpha2/Operators/Laws.antt =====
-- The name that a catalog is tracked under.
use golang_imageindex_list.Prelude.{
  Bytes, [], none, if◌then◌else◌, not_empty, Bool-cases, ap, and_false, inl, inr, ◌≡◌, ◌≢◌,
  is_empty,
}
use golang_imageindex_list.Exec.{ok}
use golang_imageindex_list.V1alpha2.Config.{Operator}
use golang_imageindex_list.V1alpha2.Operators.{
  Reference, References, catalog_name, retarget, get_unique_name,
}

-- The name of the target, or that of the catalog where no target is named.
abbrev pub name_of : Operator → Reference → Bytes
name_of o ref = if is_empty o.target_name then ref.name else o.target_name

retarget_tagged :
    (o : Operator) (ref : Reference)
    → o.target_tag ≢ []
    → retarget o ref ≡ record ref { name = name_of o ref; tag = o.target_tag; id = [] }
unfolding retarget
retarget_tagged o ref tagged =
    let t = not_empty _ tagged in
    elim (Bool-cases (is_empty o.target_name)) [ inl u ↦ rw (u, t) | inr u ↦ rw (u, t) ]

-- Where a tag is set, the name that is tracked has that tag and no digest; the name is that of the
-- target, or of the catalog where no target is named.
pub get_unique_name_tagged :
    (lib : References) (o : Operator) (ref : Reference)
    → o.target_tag ≢ []
    → lib.parse (catalog_name o) ≡ (ref, none)
    → get_unique_name lib o
      ≡ ok (lib.exact (record ref { name = name_of o ref; tag = o.target_tag; id = [] }))
unfolding get_unique_name
get_unique_name_tagged lib o ref tagged parsed = rw (
  not_empty _ tagged,
  and_false (is_empty o.target_name),
  ap (λ r. r.1) parsed,
  ap (λ r. r.0) parsed,
  retarget_tagged o ref tagged,
)
