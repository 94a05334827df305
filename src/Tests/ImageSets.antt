-- ===== src/Tests/ImageSets.antt =====
-- The theorems about the configuration of an image set, at concrete values.
use golang_imageindex_list.Prelude.{codes, [], ◌∷◌, ◌++◌, none, false, ◌≡◌, ◌↔◌, refl, arith}
use golang_imageindex_list.Prelude.Int.{pos}
use golang_imageindex_list.Exec.{ok}
use golang_imageindex_list.V1alpha2.Json.{Json}
use golang_imageindex_list.V1alpha2.ImageTypes.Laws.{named, RoundTrips, unmarshal_json-marshal_json}
use golang_imageindex_list.V1alpha2.Associations
use golang_imageindex_list.V1alpha2.PlatformTypes
use golang_imageindex_list.V1alpha2.PlatformTypes.Laws.{named_platform, unmarshal_json_named}
use golang_imageindex_list.V1alpha2.Associations.{Association}
use golang_imageindex_list.V1alpha2.Associations.Laws.{IsValid, validate_association_iff}
use golang_imageindex_list.V1alpha2.Config.{Operator}
use golang_imageindex_list.V1alpha2.Operators.{Reference, References, get_unique_name}
use golang_imageindex_list.V1alpha2.Operators.Laws.{name_of, get_unique_name_tagged}

-- Texts are written as they are.
abbrev json : Json
json = record { marshal = λ text. text; unmarshal = ok }

unmarshal_json-marshal_json_example : RoundTrips json (pos 4)
unmarshal_json-marshal_json_example =
    unmarshal_json-marshal_json json (record { unmarshal-marshal = λ text h. refl }) (pos 4)
      (named 4 (omega arith) (omega arith))

abbrev association : Association
association = record {
  name = codes "a";
  path = codes "p";
  id = [];
  tag_symlink = codes "latest";
  type = pos 7;
  manifest_digests = [];
  layer_digests = codes "sha256:ab" ∷ [];
}

validate_association_iff_example : (Associations.validate association ≡ ok tt) ↔ IsValid association
validate_association_iff_example = validate_association_iff association

abbrev operator : Operator
operator = record {
  include = record { packages = [] };
  catalog = codes "r/ns/c:1";
  target_name = [];
  target_tag = codes "v2";
  full = false;
  skip_dependencies = false;
  original_ref = [];
}

abbrev catalog_reference : Reference
catalog_reference = record {
  registry = codes "r";
  space = codes "ns";
  name = codes "c";
  tag = codes "1";
  id = [];
}

abbrev references : References
references = record {
  parse = λ text. (catalog_reference, none);
  exact = λ ref. ref.name ++ codes ":" ++ ref.tag;
  shown = λ ref. ref.name;
}

get_unique_name_tagged_example :
    get_unique_name references operator
    ≡ ok (
        references.exact (record catalog_reference {
          name = name_of operator catalog_reference;
          tag = operator.target_tag;
          id = [];
        }))
get_unique_name_tagged_example =
    get_unique_name_tagged references operator catalog_reference (λ h. cc) refl

unmarshal_json_named_example :
    PlatformTypes.unmarshal_json json (codes "windows") ≡ ok (named_platform (codes "windows"))
unmarshal_json_named_example = unmarshal_json_named json (codes "windows") (codes "windows") refl
