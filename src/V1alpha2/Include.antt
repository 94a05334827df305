-- ===== src/V1alpha2/Include.antt =====
-- pkg/api/v1alpha2/type_config_include.go: which packages of a catalog are included.
use golang_imageindex_list.Prelude.{Bytes, codes, List, [], ◌∷◌}
use golang_imageindex_list.Exec.{Exec, wrapped}
use golang_imageindex_list.Fmt.{sprintf}

-- `IncludeBundle`
pub record IncludeBundle : Type 0 where
  pub min_version : Bytes
  pub max_version : Bytes
  pub min_bundle : Bytes

-- `IncludeChannel`
pub record IncludeChannel : Type 0 where
  pub name : Bytes
  pub bundle : IncludeBundle

-- `IncludePackage`
pub record IncludePackage : Type 0 where
  pub name : Bytes
  pub channels : List IncludeChannel
  pub bundle : IncludeBundle

-- `IncludeConfig`
pub record IncludeConfig : Type 0 where
  pub packages : List IncludePackage

-- `encoding/gob`, as a parameter, over the state of the writer and the reader.
pub record Gob : Type 1 where
  pub Stream : Type 0
  -- `Encoder.Encode`
  pub encode : IncludeConfig → Exec Stream (Unit {0})
  -- `Decoder.Decode`, into the value that is the second part of the state.
  pub decode : Exec (Stream × IncludeConfig) (Unit {0})

module _ (gob : Gob) where
  -- `Encode`
  unfoldable pub encode_include : IncludeConfig → Exec gob.Stream (Unit {0})
  encode_include ic =
      wrapped (λ e. sprintf (codes "error encoding include config: %v") (e ∷ [])) (gob.encode ic)

  -- `Decode`
  unfoldable pub decode_include : Exec (gob.Stream × IncludeConfig) (Unit {0})
  decode_include =
      wrapped (λ e. sprintf (codes "error decoding include config: %v") (e ∷ [])) gob.decode
