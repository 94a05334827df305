-- ===== src/Strings/Searching.antt =====
-- Laws of `HasPrefix` and `Contains`.
use golang_imageindex_list.Prelude.{true, [], ◌∷◌, ◌≡◌, refl, Bytes}
use golang_imageindex_list.Strings.{has_prefix, contains}

pub has_prefix-nil : (s : Bytes) → has_prefix s [] ≡ true
unfolding has_prefix
has_prefix-nil [] = refl
has_prefix-nil (c ∷ s) = refl

-- Every text contains the empty text.
pub contains-nil : (s : Bytes) → contains s [] ≡ true
unfolding contains
contains-nil [] = refl
contains-nil (c ∷ s) = refl
