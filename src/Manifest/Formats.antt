-- ===== src/Manifest/Formats.antt =====
-- The decoders of Go's library that the methods call, as parameters.
use golang_imageindex_list.Prelude.{Bytes, ℕ, List, Option}
use golang_imageindex_list.Exec.{Result}
use golang_imageindex_list.Schema.Oci.{OciSchema}
use golang_imageindex_list.Schema.OperatorConfig.{OperatorConfigSchema}
use golang_imageindex_list.Schema.Release.{ReleaseSchema}
use golang_imageindex_list.Schema.Catalog.{DeclarativeConfig}

-- The fields of a `tar.Header` that the program reads.
pub record Header : Type 0 where
  pub name : Bytes
  pub typeflag : ℕ

-- What one call of `tarReader.Next` gives before the end of the archive: an entry, with the bytes
-- that can be read of it and the error that cuts them short, or an error.
pub data TarItem : Type 0 where
  entry : Header → Bytes → Option Bytes → TarItem
  broken : Bytes → TarItem

pub record Formats : Type 0 where
  -- `json.Unmarshal` at the types of the documents. A nil pointer is `none`.
  pub unmarshal_oci : Bytes → Result {0} (Option OciSchema)
  pub unmarshal_operator_config : Bytes → Result {0} (Option OperatorConfigSchema)
  pub unmarshal_release : Bytes → Result {0} ReleaseSchema
  pub unmarshal_catalog : Bytes → Result {0} (List DeclarativeConfig)
  -- `gzip.NewReader`, with the bytes that it yields.
  pub gzip_reader : Bytes → Result {0} Bytes
  -- The results of `tarReader.Next`, up to the end of the archive.
  pub tar_items : Bytes → List TarItem
