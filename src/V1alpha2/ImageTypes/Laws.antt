-- ===== src/V1alpha2/ImageTypes/Laws.antt =====
-- The image types that are valid, and their JSON form.
use golang_imageindex_list.Prelude.{
  ℕ, zero, suc, ◌≤◌, Bytes, ◌≡◌, ◌↔◌, refl, arith, some, true, bytes_eq,
}
use golang_imageindex_list.Prelude.Int.{pos, negsuc, int_eq}
use golang_imageindex_list.Exec.{ok}
use golang_imageindex_list.V1alpha2.Json.{Json, is_ascii, IsRoundTrip}
use golang_imageindex_list.V1alpha2.ImageTypes.{
  ImageType, string, string_at, check_found, validate, marshal_json, unmarshal_json, type_at,
  image_strings_type,
}

-- The named types: 1 to 7.
pub data IsNamed : ImageType → Type 0 where
  named : (n : ℕ) → 1 ≤ n → n ≤ 7 → IsNamed (pos n)

one_to_seven :
    (P : ℕ → Type 0) → P 1 → P 2 → P 3 → P 4 → P 5 → P 6 → P 7 → (n : ℕ) → 1 ≤ n → n ≤ 7 → P n
one_to_seven P a b c d e f g zero l h = absurd (omega arith)
one_to_seven P a b c d e f g (suc zero) l h = a
one_to_seven P a b c d e f g (suc (suc zero)) l h = b
one_to_seven P a b c d e f g (suc (suc (suc zero))) l h = c
one_to_seven P a b c d e f g (suc (suc (suc (suc zero)))) l h = d
one_to_seven P a b c d e f g (suc (suc (suc (suc (suc zero))))) l h = e
one_to_seven P a b c d e f g (suc (suc (suc (suc (suc (suc zero)))))) l h = f
one_to_seven P a b c d e f g (suc (suc (suc (suc (suc (suc (suc zero))))))) l h = g
one_to_seven P a b c d e f g (suc (suc (suc (suc (suc (suc (suc (suc n)))))))) l h =
    absurd (omega arith)

pub named_if_valid : (it : ImageType) → validate it ≡ ok tt → IsNamed it
unfolding validate check_found string_at int_eq
named_if_valid (pos n) h = named n (ground arith) (ground arith)
named_if_valid (negsuc n) h = absurd cc

pub valid_if_named : (it : ImageType) → IsNamed it → validate it ≡ ok tt
unfolding validate check_found string_at int_eq
valid_if_named _ (named n l h) =
    one_to_seven (λ k. validate (pos k) ≡ ok tt) refl refl refl refl refl refl refl n l h

-- `validate` accepts exactly the seven named types.
validate_image_type_iff : (it : ImageType) → (validate it ≡ ok tt) ↔ IsNamed it
validate_image_type_iff it = (named_if_valid it, valid_if_named it)

-- What is written of a type is read back as the type.
pub RoundTrips : Json → ImageType → Type 0
RoundTrips json it =
    (written : Bytes) × ((marshal_json json it ≡ ok written)
      × (unmarshal_json json written ≡ ok it))

by_table :
    (json : Json)
    → IsRoundTrip json
    → (it : ImageType) → is_ascii (string it) ≡ true
    → validate it ≡ ok tt
    → type_at (string it) image_strings_type ≡ some it
    → RoundTrips json it
unfolding RoundTrips marshal_json unmarshal_json
by_table json trip it ascii valid found =
    (json.marshal (string it), (rw valid, rw (trip.unmarshal-marshal (string it) ascii, found)))

-- A named type is written and read back as itself, if the JSON library reads back what it writes of
-- an ASCII text.
pub unmarshal_json-marshal_json :
    (json : Json) → IsRoundTrip json → (it : ImageType) → IsNamed it → RoundTrips json it
unfolding string string_at type_at validate check_found bytes_eq int_eq is_ascii
unmarshal_json-marshal_json json trip _ (named n l h) =
    one_to_seven (λ k. RoundTrips json (pos k)) (by_table json trip (pos 1) refl refl refl)
      (by_table json trip (pos 2) refl refl refl) (by_table json trip (pos 3) refl refl refl)
      (by_table json trip (pos 4) refl refl refl) (by_table json trip (pos 5) refl refl refl)
      (by_table json trip (pos 6) refl refl refl) (by_table json trip (pos 7) refl refl refl) n l h
