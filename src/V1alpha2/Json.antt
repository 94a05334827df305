-- ===== src/V1alpha2/Json.antt =====
-- The JSON form of a text, as `encoding/json` writes and reads it, as a parameter.
use golang_imageindex_list.Prelude.{Bytes, Bool, true, [], ◌∷◌, ◌&&◌, ltb, ◌≡◌}
use golang_imageindex_list.Exec.{Result, ok}

pub record Json : Type 0 where
  -- `json.Marshal` of a text. It never fails at that type.
  pub marshal : Bytes → Bytes
  -- `json.Unmarshal` into a variable of type `string`.
  pub unmarshal : Bytes → Result {0} Bytes

-- The bytes below 128.
unfoldable pub is_ascii : Bytes → Bool
is_ascii [] = true
is_ascii (c ∷ cs) = ltb c 128 && is_ascii cs

-- What is written of an ASCII text is read back.
pub record IsRoundTrip (json : Json) : Type 0 where
  pub unmarshal-marshal :
      (text : Bytes) → is_ascii text ≡ true → json.unmarshal (json.marshal text) ≡ ok text
