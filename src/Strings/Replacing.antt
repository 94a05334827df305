-- ===== src/Strings/Replacing.antt =====
-- Laws of `ReplaceAll`.
use golang_imageindex_list.Prelude.{
  ℕ, zero, [], ◌∷◌, ◌≡◌, refl, map, arith, Bytes, ◌==◌, if◌then◌else◌,
}
use golang_imageindex_list.Strings.{replace_loop, replace_all}

-- One byte for another.
abbrev pub exchange : ℕ → ℕ → ℕ → ℕ
exchange a b c = if c == a then b else c

replace_loop-map :
    (a b : ℕ) (s : Bytes) → replace_loop (a ∷ []) (b ∷ []) s zero ≡ map (exchange a b) s
unfolding replace_loop
replace_loop-map a b [] = refl
replace_loop-map a b (c ∷ s) = ground (arith, replace_loop-map a b s)

pub replace_all-map : (a b : ℕ) (s : Bytes) → replace_all s (a ∷ []) (b ∷ []) ≡ map (exchange a b) s
unfolding replace_all
replace_all-map a b s = replace_loop-map a b s
