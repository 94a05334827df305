-- ===== src/Strings.antt =====
-- The functions of Go's package `strings` that the program calls, over bytes.
-- Separators are one byte long, as in every call.
pub mod Splitting
pub mod Replacing
pub mod Searching
use golang_imageindex_list.Prelude.{
  ℕ, zero, suc, ◌-◌, Bool, true, false, ◌&&◌, ◌||◌, List, [], ◌∷◌, ◌++◌, reverse, Bytes, length,
  ◌==◌, if◌then◌else◌,
}

-- `HasPrefix(s, prefix)`
unfoldable pub has_prefix : Bytes → Bytes → Bool
has_prefix s [] = true
has_prefix [] (d ∷ p) = false
has_prefix (c ∷ s) (d ∷ p) = c == d && has_prefix s p

-- `Contains(s, substr)`
unfoldable pub contains : Bytes → Bytes → Bool
unfolding has_prefix
contains [] sub = has_prefix [] sub
contains (c ∷ s) sub = has_prefix (c ∷ s) sub || contains s sub

-- Puts a byte in front of the first part.
unfoldable pub extend : ℕ → List Bytes → List Bytes
extend c [] = (c ∷ []) ∷ []
extend c (p ∷ ps) = (c ∷ p) ∷ ps

-- `Split(s, sep)`
unfoldable pub split : Bytes → ℕ → List Bytes
unfolding extend
split [] sep = [] ∷ []
split (c ∷ s) sep = let rest = split s sep in if c == sep then [] ∷ rest else extend c rest

-- `Join(elems, sep)`
unfoldable pub join : List Bytes → Bytes → Bytes
join [] sep = []
join (p ∷ []) sep = p
join (p ∷ q ∷ ps) sep = p ++ (sep ++ join (q ∷ ps) sep)

-- The scan of `replace_all`; the number counts the bytes of a match that are still to be skipped.
unfoldable pub replace_loop : Bytes → Bytes → Bytes → ℕ → Bytes
unfolding has_prefix
replace_loop old new [] k = []
replace_loop old new (c ∷ s) (suc k) = replace_loop old new s k
replace_loop old new (c ∷ s) zero =
    let hit = new ++ replace_loop old new s (length old - 1) in
    let miss = c ∷ replace_loop old new s zero in if has_prefix (c ∷ s) old then hit else miss

-- `ReplaceAll(s, old, new)`, for an `old` that is not empty.
unfoldable pub replace_all : Bytes → Bytes → Bytes → Bytes
unfolding replace_loop
replace_all s old new = replace_loop old new s zero

-- The text behind a prefix of that length.
unfoldable pub drop : ℕ → Bytes → Bytes
drop zero s = s
drop (suc n) [] = []
drop (suc n) (c ∷ s) = drop n s

-- `TrimPrefix(s, prefix)`
unfoldable pub trim_prefix : Bytes → Bytes → Bytes
unfolding has_prefix drop
trim_prefix s prefix = if has_prefix s prefix then drop (length prefix) s else s

-- `TrimSuffix(s, suffix)`
unfoldable pub trim_suffix : Bytes → Bytes → Bytes
unfolding trim_prefix
trim_suffix s suffix = reverse (trim_prefix (reverse s) (reverse suffix))
