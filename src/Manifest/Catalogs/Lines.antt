-- ===== src/Manifest/Catalogs/Lines.antt =====
-- The lines that `ListCatalogs` logs.
use golang_imageindex_list.Prelude.{
  Bytes, codes, List, [], ◌∷◌, ◌++◌, map, flat_map, ◌≡◌, refl, ◌∙◌, not, is_empty, bytes_eq,
  append-nil, append_assoc, Bool-cases, inl, inr, if◌then◌else◌,
}
use mathlib.Core.List.{map-append}
use golang_imageindex_list.Exec.{
  Result, ok, err, Outcome, returned, failed, Exec, pure, modify, lift, continue, outcome, for_each,
  ◌>>=◌, ◌>>◌,
}
use golang_imageindex_list.Exec.Laws.{bind_assoc, bind_returned}
use golang_imageindex_list.Fmt.{sprintf}
use golang_imageindex_list.Os.{Os}
use golang_imageindex_list.World.{World, LogLine, info, os_read}
use golang_imageindex_list.Log.{log_info}
use golang_imageindex_list.Schema.Catalog.{ChannelEntry, DeclarativeConfig}
use golang_imageindex_list.Manifest.Formats.{Formats}
use golang_imageindex_list.Manifest.Catalogs.{
  channel_format, bundle_format, name_format, updated_json, catalog_json, list_entry, list_object,
  read_operator_catalog, list_catalogs,
}

-- A message before formatting.
abbrev pub Line : Type 0
Line = Bytes × List Bytes

abbrev skip_line : Bytes → Line
skip_line x = (codes "       skips: %s", x ∷ [])

-- What is shown of an entry: its name, and the graph edges that are there.
pub entry_lines : ChannelEntry → List Line
entry_lines e =
    (name_format, e.name ∷ [])
    ∷ ((if is_empty e.replaces then [] else (codes "       replaces: %s", e.replaces ∷ []) ∷ [])
        ++ (flat_map (λ x. skip_line x ∷ []) e.skips
            ++ (if is_empty e.skip_range
                then []
                else (codes "       skiprange: %s", e.skip_range ∷ []) ∷ [])))

-- What is shown of an object: a channel with its entries, or a bundle; others are passed over.
pub object_lines : DeclarativeConfig → List Line
unfolding entry_lines
object_lines obj =
    if bytes_eq obj.schema (codes "olm.channel")
    then (channel_format, obj.name ∷ []) ∷ flat_map entry_lines obj.entries
    else if bytes_eq obj.schema (codes "olm.bundle")
    then (bundle_format, obj.name ∷ []) ∷ []
    else []

abbrev pub shown : Bytes → Line → LogLine
shown level (format, args) = record { method = info; level = level; message = sprintf format args }

-- The state after the lines are logged.
unfoldable pub said : {O : Os} → List Line → World O → World O
said lines w = record w { log = w.log ++ map (shown w.level) lines }

-- The action logs the lines and does nothing else.
pub record Says (O : Os) (m : Exec (World O) (Unit {0})) (lines : List Line) : Type 0 where
  pub at : (w : World O) → m w ≡ (returned tt, said lines w)

module _ {O : Os} where
  said-nil : (w : World O) → said [] w ≡ w
  unfolding said
  said-nil w = rw append-nil

  said-append : (xs ys : List Line) (w : World O) → said (xs ++ ys) w ≡ said ys (said xs w)
  unfolding said
  said-append xs ys w = simp (map-append, append_assoc)

  Says-nothing : Says O (pure tt) []
  unfolding pure
  Says-nothing = record { at = λ w. rw said-nil }

  pub Says-info :
      (format : Bytes) (args : List Bytes) → Says O (log_info format args) ((format, args) ∷ [])
  unfolding said modify
  Says-info format args = record { at = λ w. refl }

  pub Says-bind :
      {m n : Exec (World O) (Unit {0})} {xs ys : List Line}
      → Says O m xs
      → Says O n ys
      → Says O (m >> n) (xs ++ ys)
  Says-bind {m} {xs} {ys} hm hn = record {
    at = λ w. bind_returned m _ (hm.at w) ∙ (hn.at (said xs w) ∙ rw said-append);
  }

  pub Says-for_each :
      {A : Type 0} (body : A → Exec (World O) (Unit {0})) (lines : A → List Line)
      → ((x : A) → Says O (body x) (lines x))
      → (xs : List A) → Says O (for_each xs body) (flat_map lines xs)
  unfolding for_each flat_map
  Says-for_each body lines h [] = Says-nothing
  Says-for_each body lines h (x ∷ xs) = Says-bind (h x) (Says-for_each body lines h xs)

  Says-unless :
      {A : Type 0} (l : List A) (m : Exec (World O) (Unit {0})) (xs : List Line)
      → Says O m xs
      → Says O (if not (is_empty l) then m else pure tt) (if is_empty l then [] else xs)
  Says-unless [] m xs h = Says-nothing
  Says-unless (x ∷ l) m xs h = h

  list_skips :
      (skips : List Bytes)
      → Says O
          (if not (is_empty skips)
            then for_each skips (λ x. log_info (codes "       skips: %s") (x ∷ []))
            else pure tt)
          (flat_map (λ x. skip_line x ∷ []) skips)
  unfolding flat_map
  list_skips [] = Says-nothing
  list_skips (x ∷ skips) = Says-for_each _ _ (λ y. Says-info _ (y ∷ [])) (x ∷ skips)

  list_entry-Says : (e : ChannelEntry) → Says O (list_entry e) (entry_lines e)
  unfolding list_entry entry_lines
  list_entry-Says e = Says-bind (Says-info name_format (e.name ∷ [])) (
      Says-bind (Says-unless e.replaces _ _ (Says-info _ _))
        (Says-bind (list_skips e.skips) (Says-unless e.skip_range _ _ (Says-info _ _))))

  list_object-Says : (obj : DeclarativeConfig) → Says O (list_object obj) (object_lines obj)
  unfolding list_object object_lines
  list_object-Says obj = elim (Bool-cases (bytes_eq obj.schema (codes "olm.channel"))) [
    | inl channel ↦ rw channel (
        Says-bind (Says-info channel_format (obj.name ∷ []))
          (Says-for_each list_entry entry_lines list_entry-Says obj.entries))
    | inr other ↦ elim (Bool-cases (bytes_eq obj.schema (codes "olm.bundle"))) [
      | inl bundle ↦ rw (other, bundle) (Says-info bundle_format (obj.name ∷ []))
      | inr neither ↦ rw (other, neither) Says-nothing
    ]
  ]

-- The end of a listing: the lines of the objects, or the error with nothing logged.
unfoldable pub listed :
    {O : Os} → Result (List DeclarativeConfig) → World O → Outcome (Unit {0}) × World O
unfolding object_lines
listed (ok olm) w = (returned tt, said (flat_map object_lines olm) w)
listed (err e) w = (failed e, w)

-- The objects that a catalog file holds, or the error of the file or of the decoder.
unfoldable pub decoded : Formats → Result Bytes → Result (List DeclarativeConfig)
decoded formats (ok text) = formats.unmarshal_catalog (updated_json text)
decoded formats (err e) = err e

after_decoding :
    {O : Os} (r : Result (List DeclarativeConfig)) (w : World O)
    → (lift r >>= λ olm. for_each olm list_object) w ≡ listed r w
unfolding ◌>>=◌ listed
after_decoding (ok olm) w = (Says-for_each list_object object_lines list_object-Says olm).at w
after_decoding (err e) w = refl

after_reading :
    {O : Os} (formats : Formats) (r : Result Bytes) (w : World O)
    → continue
        (outcome r)
        (λ text.
          lift (formats.unmarshal_catalog (updated_json text)) >>= λ olm. for_each olm list_object)
        w
      ≡ listed (decoded formats r) w
unfolding decoded
after_reading formats (ok text) w = after_decoding (formats.unmarshal_catalog (updated_json text)) w
after_reading formats (err e) w = unfold listed in refl

-- `ListCatalogs` logs the lines of the channels and the bundles of `catalog.json`, in order, and
-- succeeds; it fails, with nothing logged, exactly with the error of the file or of the decoder.
-- It changes nothing but the log.
pub list_catalogs_lem :
    {O : Os} (formats : Formats) (file_path op : Bytes) (w : World O)
    → list_catalogs formats file_path op w
      ≡ listed
          (decoded formats
            (O.read_file w.os (file_path ++ codes "/" ++ op ++ codes "/" ++ catalog_json)))
          w
unfolding list_catalogs read_operator_catalog
list_catalogs_lem {O} formats file_path op w = rw bind_assoc (
    unfold ◌>>=◌ os_read in
    after_reading formats
      (O.read_file w.os (file_path ++ codes "/" ++ op ++ codes "/" ++ catalog_json)) w)
