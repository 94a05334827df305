-- ===== src/Fmt.antt =====
-- Go's `fmt.Sprintf` for the verbs that the program uses. The arguments come rendered as texts.
use golang_imageindex_list.Prelude.{
  Bool, true, false, List, [], ◌∷◌, ◌++◌, Bytes, codes, ◌==◌, if◌then◌else◌, ◌≡◌, refl, ℕ, ◌+◌, ltb,
}
use Prim.Native.Nat.{◌/◌, ◌%◌}
use golang_imageindex_list.Strings.{join}

-- `%q`, for texts of printable ASCII bytes.
unfoldable pub quote_loop : Bytes → Bytes
quote_loop [] = b'"' ∷ []
quote_loop (c ∷ s) =
    (if c == b'"' then b'\\' ∷ c ∷ [] else if c == b'\\' then b'\\' ∷ c ∷ [] else c ∷ [])
    ++ quote_loop s

unfoldable pub quote : Bytes → Bytes
unfolding quote_loop
quote s = b'"' ∷ quote_loop s

-- `%v` of a byte, in decimal.
unfoldable pub show_byte : ℕ → Bytes
show_byte n =
    let ones = (b'0' + n % 10) ∷ [] in
    let tens = (b'0' + (n / 10) % 10) ∷ ones in
    if ltb n 10 then ones else if ltb n 100 then tens else (b'0' + n / 100) ∷ tens

show_byte_link : show_byte b'2' ≡ codes "50"
unfolding show_byte
show_byte_link = refl

-- What is left of the arguments when the format ends.
unfoldable pub extra : List Bytes → Bytes
unfolding join
extra [] = []
extra (a ∷ args) = codes "%!(EXTRA string=" ++ (join (a ∷ args) (codes ", string=") ++ codes ")")

-- The flag is set behind a `%`.
unfoldable pub format_loop : Bytes → Bool → List Bytes → Bytes
unfolding extra quote
format_loop [] false args = extra args
format_loop [] true args = codes "%!(NOVERB)" ++ extra args
format_loop (c ∷ s) false args =
    let verb = format_loop s true args in
    let plain = c ∷ format_loop s false args in if c == b'%' then verb else plain
format_loop (c ∷ s) true [] =
    (if c == b'%' then b'%' ∷ [] else codes "%!" ++ (c ∷ codes "(MISSING)"))
    ++ format_loop s false []
format_loop (c ∷ s) true (a ∷ args) =
    let percent = b'%' ∷ format_loop s false (a ∷ args) in
    let value = (if c == b'q' then quote a else a) ++ format_loop s false args in
    if c == b'%' then percent else value

-- `Sprintf(format, args...)`
unfoldable pub sprintf : Bytes → List Bytes → Bytes
unfolding format_loop
sprintf format args = format_loop format false args

sprintf_two : sprintf (codes "a %s: %v %%") (codes "x" ∷ codes "y" ∷ []) ≡ codes "a x: y %"
unfolding sprintf
sprintf_two = refl

sprintf_extra : sprintf (codes "a") (codes "x" ∷ []) ≡ codes "a%!(EXTRA string=x)"
unfolding sprintf
sprintf_extra = refl
