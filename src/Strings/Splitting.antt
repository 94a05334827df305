-- ===== src/Strings/Splitting.antt =====
-- Laws of `Split`.
use golang_imageindex_list.Prelude.{
  ℕ, List, [], ◌∷◌, ◌++◌, some, ◌≡◌, ◌≢◌, ◌⊎◌, inl, inr, refl, arith, Bytes, get_elem?, All, ◌==◌,
  ==_self, Bool-cases,
}
use golang_imageindex_list.Strings.{split}

-- The byte does not occur.
abbrev pub Lacks : ℕ → Bytes → Type 0
Lacks b = All (λ c. c ≢ b)

module _ (sep : ℕ) where
  pub split-Lacks : (s : Bytes) → Lacks sep s → split s sep ≡ s ∷ []
  unfolding split
  split-Lacks [] h = refl
  split-Lacks (c ∷ s) (hc, hs) = rw (split-Lacks s hs) (ground arith)

  pub split-append_sep : (p s : Bytes) → Lacks sep p → split (p ++ sep ∷ s) sep ≡ p ∷ split s sep
  unfolding split
  split-append_sep [] s h = rw (==_self sep)
  split-append_sep (c ∷ p) s (hc, hp) = rw (split-append_sep p s hp) (ground arith)

  split_one : (s : Bytes) → (a : Bytes) × (rest : List Bytes) × (split s sep ≡ a ∷ rest)
  unfolding split
  split_one [] = ([], [], refl)
  split_one (c ∷ s) =
      let (a, rest, e) = split_one s in
      elim (Bool-cases (c == sep)) [
        | inl hit ↦ ([], a ∷ rest, rw (hit, e))
        | inr miss ↦ (c ∷ a, rest, rw (miss, e))
      ]

  -- A text in which the separator occurs has two parts at least.
  pub split_two :
      (p s : Bytes)
      → (a : Bytes) × (b : Bytes) × (rest : List Bytes) × (split (p ++ sep ∷ s) sep ≡ a ∷ b ∷ rest)
  unfolding split
  split_two [] s = let (b, rest, e) = split_one s in ([], b, rest, rw (==_self sep, e))
  split_two (c ∷ p) s =
      let (a, b, rest, e) = split_two p s in
      elim (Bool-cases (c == sep)) [
        | inl hit ↦ ([], a, b ∷ rest, rw (hit, e))
        | inr miss ↦ (c ∷ a, b, rest, rw (miss, e))
      ]

  -- The part behind the first separator is there unless the text lacks it.
  pub second_part_or_Lacks :
      (s : Bytes) → ((a : Bytes) × (get_elem? (split s sep) 1 ≡ some a)) ⊎ Lacks sep s
  unfolding split
  second_part_or_Lacks [] = inr tt
  second_part_or_Lacks (c ∷ s) =
      let (a, rest, e) = split_one s in
      elim (Bool-cases (c == sep)) [
        | inl hit ↦ inl (a, rw (hit, e))
        | inr miss ↦ elim (second_part_or_Lacks s) [
          | inl (b, h) ↦ inl (b, rw (miss, e) (rw e at h))
          | inr lacks ↦ inr (ground arith, lacks)
        ]
      ]
