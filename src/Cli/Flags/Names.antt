-- ===== src/Cli/Flags/Names.antt =====
-- The names of the flags.
use golang_imageindex_list.Prelude.{
  Bool, true, false, ◌&&◌, inl, inr, Option, some, none, List, [], ◌∷◌, ◌≡◌, refl, bytes_eq,
  bytes_eq_sound, bytes_eq_refl, Bool-cases, arith,
}
use golang_imageindex_list.Options.{CopyOptions}
use golang_imageindex_list.Options.Flags.{Flag, find_flag}
use golang_imageindex_list.Prelude.{Among}
use golang_imageindex_list.Cli.Flags.{command_flags}

is_none : Option (Flag CopyOptions) → Bool
is_none none = true
is_none (some f) = false

-- No flag has the name of a later one.
distinct : List (Flag CopyOptions) → Bool
distinct [] = true
distinct (f ∷ flags) = is_none (find_flag f.name flags) && distinct flags

find_flag-Among :
    (flags : List (Flag CopyOptions)) (f : Flag CopyOptions)
    → distinct flags ≡ true
    → Among f flags
    → find_flag f.name flags ≡ some f
unfolding distinct find_flag is_none
find_flag-Among [] f h among = absurd among
find_flag-Among (g ∷ flags) f h (inl e) = rw (e, bytes_eq_refl g.name)
find_flag-Among (g ∷ flags) f h (inr among) =
    let found = find_flag-Among flags f (ground arith) among in
    elim (Bool-cases (bytes_eq g.name f.name)) [
      | inl same ↦ absurd (grind (arith, bytes_eq_sound g.name f.name same))
      | inr other ↦ rw other found
    ]

command_flags-distinct : distinct command_flags ≡ true
unfolding distinct is_none find_flag command_flags
command_flags-distinct = refl

-- No name is used for two flags: looking for the name of a flag of the command finds that flag.
find_flag-name :
    {f : Flag CopyOptions} → Among f command_flags → find_flag f.name command_flags ≡ some f
find_flag-name {f} among = find_flag-Among command_flags f command_flags-distinct among
