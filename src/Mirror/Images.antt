-- ===== src/Mirror/Images.antt =====
-- The third-party image libraries, as parameters.
use golang_imageindex_list.Prelude.{Bytes, Bool}
use golang_imageindex_list.Prelude.Int.{ℤ}
use golang_imageindex_list.Exec.{Result, Exec}
use golang_imageindex_list.Os.{Os}
use golang_imageindex_list.World.{World}
use golang_imageindex_list.Options.Contexts.{SystemContext, Context}
use golang_imageindex_list.Options.Format.{MediaTypes}

-- The fields of `copy.Options` that the program sets. The report writer is not modelled.
pub record ImageCopyOptions : Type 0 where
  pub remove_signatures : Bool
  pub sign_by : Bytes
  pub sign_by_sigstore_private_key_file : Bytes
  pub source_ctx : SystemContext
  pub destination_ctx : SystemContext
  pub force_manifest_mime_type : Bytes
  pub preserve_digests : Bool

pub record Images (O : Os) : Type 1 where
  pub Policy : Type 0
  pub PolicyContext : Type 0
  pub ImageReference : Type 0
  pub media_types : MediaTypes
  -- How `fmt.Println` shows the transport of a name.
  pub transport : Bytes → Bytes
  -- `logrus.Warnf`
  pub warn : Bytes → Exec (World O) (Unit {0})
  -- `signature.NewPRInsecureAcceptAnything`, `DefaultPolicy` and `NewPolicyFromFile`
  pub insecure_policy : Policy
  pub default_policy : Exec (World O) Policy
  pub policy_from_file : Bytes → Exec (World O) Policy
  pub new_policy_context : Policy → Exec (World O) PolicyContext
  pub destroy : PolicyContext → Exec (World O) (Unit {0})
  pub parse_image_name : Bytes → Result {0} ImageReference
  -- `copy.Image`: policy context, destination, source
  pub copy_image :
      Context
      → PolicyContext
      → ImageReference
      → ImageReference
      → ImageCopyOptions
      → Exec (World O) Bytes
  -- `retry.IfNecessary`
  pub if_necessary : Context → Exec (World O) (Unit {0}) → ℤ → Exec (World O) (Unit {0})
