-- ===== src/Manifest/Catalogs/Json.antt =====
-- The text that `readOperatorCatalog` decodes.
use golang_imageindex_list.Prelude.{
  ℕ, zero, suc, ◌∙◌, sym, ap, map, Bool-cases, inl, inr, Bytes, codes, List, [], ◌∷◌, ◌++◌, ◌≡◌,
  refl, arith, false, All, All-append, append_assoc, ◌==◌,
}
use golang_imageindex_list.Strings.{contains, has_prefix, join, replace_loop}
use golang_imageindex_list.Strings.Splitting.{Lacks}
use golang_imageindex_list.Manifest.Catalogs.{updated_json}

-- What stands between two objects, and what is put in its place.
abbrev break : Bytes
break = b'}' ∷ 10 ∷ b'{' ∷ []

abbrev comma : Bytes
comma = codes "},{"

-- A text without a space is left alone by the removal of spaces.
remove-Lacks : (s : Bytes) → Lacks b' ' s → replace_loop (codes " ") [] s zero ≡ s
unfolding replace_loop
remove-Lacks [] h = refl
remove-Lacks (c ∷ s) (hc, hs) = rw (remove-Lacks s hs) (ground arith)

-- A break does not begin in a text that has none and is followed by a closing brace.
no_break :
    (c : ℕ) (s rest : Bytes)
    → has_prefix (c ∷ s) break ≡ false
    → has_prefix (c ∷ (s ++ b'}' ∷ rest)) break ≡ false
unfolding has_prefix
no_break c [] rest h = ground arith
no_break c (d ∷ []) rest h = ground arith
no_break c (d ∷ e ∷ s) rest h = ground arith

scan :
    (s rest : Bytes)
    → contains s break ≡ false
    → replace_loop break comma (s ++ b'}' ∷ rest) zero
      ≡ s ++ replace_loop break comma (b'}' ∷ rest) zero
unfolding contains replace_loop
scan [] rest h = refl
scan (c ∷ s) rest h = ground (arith, no_break c s rest, scan s rest)

-- An object with what stands between its braces.
abbrev pub object : Bytes → Bytes
object body = b'{' ∷ (body ++ b'}' ∷ [])

abbrev pub objects : List Bytes → Bytes → Bytes
objects bodies sep = join (map object bodies) sep

-- A body without spaces, in which no object ends in front of another one.
abbrev pub IsCompact : Bytes → Type 0
IsCompact body = Lacks b' ' body × (contains body break ≡ false)

opened : (body : Bytes) → contains body break ≡ false → contains (b'{' ∷ body) break ≡ false
unfolding contains
opened body h = h

break_step :
    (t : Bytes)
    → replace_loop break comma (b'}' ∷ 10 ∷ b'{' ∷ t) zero
      ≡ b'}' ∷ b',' ∷ replace_loop break comma (b'{' ∷ t) zero
unfolding replace_loop
break_step t = refl

last_step : replace_loop break comma (b'}' ∷ []) zero ≡ b'}' ∷ []
unfolding replace_loop
last_step = refl

objects_head :
    (body : Bytes) (bodies : List Bytes) (sep : Bytes)
    → (t : Bytes) × (objects (body ∷ bodies) sep ≡ b'{' ∷ t)
unfolding join
objects_head body [] sep = (body ++ b'}' ∷ [], refl)
objects_head body (b ∷ bodies) sep = (_, refl)

objects_two :
    (a b : Bytes) (bodies : List Bytes) (sep : Bytes)
    → objects (a ∷ b ∷ bodies) sep ≡ (b'{' ∷ a) ++ b'}' ∷ (sep ++ objects (b ∷ bodies) sep)
unfolding join
objects_two a b bodies sep = simp append_assoc

objects-Lacks : (bodies : List Bytes) → All IsCompact bodies → Lacks b' ' (objects bodies (10 ∷ []))
objects-Lacks [] _ = unfold join in tt
objects-Lacks (a ∷ []) (c, _) =
    unfold join in (omega arith, All-append _ a (b'}' ∷ []) c.0 (omega arith))
objects-Lacks (a ∷ b ∷ bodies) (c, cs) = rw objects_two (
  omega arith,
  All-append _ a (b'}' ∷ 10 ∷ objects (b ∷ bodies) (10 ∷ [])) c.0
      (omega arith, (omega arith, objects-Lacks (b ∷ bodies) cs)),
)

tail_step :
    (b : Bytes) (bodies : List Bytes)
    → replace_loop break comma (objects (b ∷ bodies) (10 ∷ [])) zero
      ≡ objects (b ∷ bodies) (codes ",")
    → replace_loop break comma (b'}' ∷ 10 ∷ objects (b ∷ bodies) (10 ∷ [])) zero
      ≡ b'}' ∷ b',' ∷ objects (b ∷ bodies) (codes ",")
tail_step b bodies ih =
    let (t, e) = objects_head b bodies (10 ∷ []) in
    ap (λ s. replace_loop break comma (b'}' ∷ 10 ∷ s) zero) e
    ∙ (break_step t
        ∙ (ap (λ s. b'}' ∷ b',' ∷ replace_loop break comma s zero) (sym e)
            ∙ ap (λ s. b'}' ∷ b',' ∷ s) ih))

breaks_to_commas :
    (bodies : List Bytes)
    → All IsCompact bodies
    → replace_loop break comma (objects bodies (10 ∷ [])) zero ≡ objects bodies (codes ",")
breaks_to_commas [] _ = unfold join replace_loop in refl
breaks_to_commas (a ∷ []) (c, _) =
    unfold join in scan (b'{' ∷ a) [] (opened a c.1) ∙ ap (λ t. (b'{' ∷ a) ++ t) last_step
breaks_to_commas (a ∷ b ∷ bodies) (c, cs) =
    ap (λ s. replace_loop break comma s zero) (objects_two a b bodies (10 ∷ []))
    ∙ (scan (b'{' ∷ a) (10 ∷ objects (b ∷ bodies) (10 ∷ [])) (opened a c.1)
        ∙ (ap (λ t. (b'{' ∷ a) ++ t) (tail_step b bodies (breaks_to_commas (b ∷ bodies) cs))
            ∙ sym (objects_two a b bodies (codes ","))))

-- Compact objects, one to a line, become the elements of one JSON array, none of them changed.
pub updated_json-objects :
    (bodies : List Bytes)
    → All IsCompact bodies
    → updated_json (objects bodies (10 ∷ []))
      ≡ codes "[" ++ (objects bodies (codes ",") ++ codes "]")
unfolding updated_json
updated_json-objects bodies h =
    rw (remove-Lacks (objects bodies (10 ∷ [])) (objects-Lacks bodies h), breaks_to_commas bodies h)

remove_all-Lacks : (s : Bytes) → Lacks b' ' (replace_loop (codes " ") [] s zero)
unfolding replace_loop has_prefix
remove_all-Lacks [] = tt
remove_all-Lacks (c ∷ s) = elim (Bool-cases (c == b' ')) [
  | inl hit ↦ rw hit (remove_all-Lacks s)
  | inr miss ↦ rw miss (ground arith, remove_all-Lacks s)
]

replace_loop-Lacks : (s : Bytes) (k : ℕ) → Lacks b' ' s → Lacks b' ' (replace_loop break comma s k)
unfolding replace_loop
replace_loop-Lacks [] k h = tt
replace_loop-Lacks (c ∷ s) (suc k) (_, h) = replace_loop-Lacks s k h
replace_loop-Lacks (c ∷ s) zero (hc, h) = elim (Bool-cases (has_prefix (c ∷ s) break)) [
  | inl hit ↦ rw hit (omega arith, (omega arith, (omega arith, replace_loop-Lacks s 2 h)))
  | inr miss ↦ rw miss (hc, replace_loop-Lacks s zero h)
]

-- Whatever the file holds, also inside its strings, the text that is decoded has no space.
updated_json-Lacks : (text : Bytes) → Lacks b' ' (updated_json text)
unfolding updated_json
updated_json-Lacks text = (
  omega arith,
  All-append _ _ (codes "]")
      (replace_loop-Lacks (replace_loop (codes " ") [] text zero) zero (remove_all-Lacks text))
      (omega arith),
)
