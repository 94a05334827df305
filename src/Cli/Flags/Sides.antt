-- ===== src/Cli/Flags/Sides.antt =====
-- The flags of the source and those of the destination: their order.
use mathlib.Core.Path.{subst}
use golang_imageindex_list.Prelude.{Bytes, codes, ◌≡◌, sym, refl}
use golang_imageindex_list.Exec.{ok}
use golang_imageindex_list.Options.{CopyOptions, ImageOptions, ImageDestOptions}
use golang_imageindex_list.Options.Flags.{
  Values, Flag, set_variable, flag_of, image_flags, image_dest_flags,
}
use golang_imageindex_list.Prelude.{Among}
use golang_imageindex_list.Options.Flags.Commute.{Among-map, set_variable-swap}
use golang_imageindex_list.Cli.Flags.{source_flags, destination_flags}

abbrev get_source : CopyOptions → ImageOptions
get_source o = o.src_image

abbrev put_source : ImageOptions → CopyOptions → CopyOptions
put_source i o = record o { src_image = i }

abbrev get_destination : CopyOptions → ImageDestOptions
get_destination o = o.dest_image

abbrev put_destination : ImageDestOptions → CopyOptions → CopyOptions
put_destination i o = record o { dest_image = i }

source_flag :
    (f : Flag CopyOptions)
    → Among f source_flags
    → (g : Flag ImageOptions) × (f ≡ flag_of get_source put_source g)
unfolding source_flags
source_flag f among = Among-map _ (image_flags (codes "src-") (codes "screds")) f among

destination_flag :
    (f : Flag CopyOptions)
    → Among f destination_flags
    → (g : Flag ImageDestOptions) × (f ≡ flag_of get_destination put_destination g)
unfolding destination_flags
destination_flag f among = Among-map _ (image_dest_flags (codes "dest-") (codes "dcreds")) f among

-- The second flag can be set first, and the first one then gives the same options.
pub Swapped :
    Values
    → Flag CopyOptions
    → Flag CopyOptions
    → Bytes
    → Bytes
    → CopyOptions
    → CopyOptions
    → Type 0
Swapped values f d value value' opts opts'' =
    (c : CopyOptions) × ((set_variable values d.variable value' opts ≡ ok c)
      × (set_variable values f.variable value c ≡ ok opts''))

Swapped-inside :
    (values : Values) (g : Flag ImageOptions) (h : Flag ImageDestOptions) (value value' : Bytes)
    (opts opts' opts'' : CopyOptions)
    → set_variable values (flag_of get_source put_source g).variable value opts ≡ ok opts'
    → set_variable values (flag_of get_destination put_destination h).variable value' opts'
      ≡ ok opts''
    → Swapped values
        (flag_of get_source put_source g)
        (flag_of get_destination put_destination h)
        value
        value'
        opts
        opts''
unfolding Swapped flag_of
Swapped-inside values g h value value' opts opts' opts'' =
    set_variable-swap get_source put_source get_destination put_destination (λ b t. refl)
      (λ a t. refl) (λ a b t. refl) values g.variable h.variable value value' opts opts' opts''

-- A flag of the source and a flag of the destination may be given in either order: if both are set,
-- they can be set the other way round, to the same options.
pub source_destination_swap :
    (values : Values) (f d : Flag CopyOptions) (value value' : Bytes)
    (opts opts' opts'' : CopyOptions)
    → Among f source_flags
    → Among d destination_flags
    → set_variable values f.variable value opts ≡ ok opts'
    → set_variable values d.variable value' opts' ≡ ok opts''
    → Swapped values f d value value' opts opts''
source_destination_swap values f d value value' opts opts' opts'' among among' h h' =
    let (g, is_source) = source_flag f among in
    let (k, is_destination) = destination_flag d among' in
    subst (λ d. Swapped values f d value value' opts opts'') (sym is_destination)
      (subst
        (λ f. Swapped values f (flag_of get_destination put_destination k) value value' opts opts'')
        (sym is_source)
        (Swapped-inside values g k value value' opts opts' opts''
          (subst (λ f. set_variable values f.variable value opts ≡ ok opts') is_source h)
          (subst (λ d. set_variable values d.variable value' opts' ≡ ok opts'') is_destination h')))
