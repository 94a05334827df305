-- ===== src/Mirror/Policies.antt =====
-- A copy under options that accept any signature: which of the image libraries' policies it reads.
use golang_imageindex_list.Prelude.{Bytes, ◌≡◌, true}
use golang_imageindex_list.Exec.{Exec, ◌>>=◌}
use golang_imageindex_list.Os.{Os}
use golang_imageindex_list.World.{World}
use golang_imageindex_list.Options.{GlobalOptions}
use golang_imageindex_list.Options.Contexts.{policy_source}
use golang_imageindex_list.Mirror.{Mirror}
use golang_imageindex_list.Mirror.Images.{Images}
use golang_imageindex_list.Mirror.Copy as MirrorCopy
use golang_imageindex_list.Mirror.Copy.{
  choose_policy, get_policy_context, obtain_policy, attempt, copy_with, copy, warn_if_used,
  reexec_if_necessary_for_images, manifest_type,
}

-- The two mirrors do the same under options that accept any signature.
pub record AgreeInsecure {O : Os} (mirror mirror' : Mirror O) : Type 0 where
  pub at :
      (src dest mode : Bytes) (w : World O)
      → w.opts.global.insecure_policy ≡ true
      → mirror.run src dest mode w ≡ mirror'.run src dest mode w

module _ {O : Os} (images : Images O) (default_policy : Exec (World O) images.Policy)
    (policy_from_file : Bytes → Exec (World O) images.Policy) where
  -- The libraries, with another default policy and other policy files.
  abbrev pub with_policies : Images O
  with_policies = record images {
    default_policy = default_policy;
    policy_from_file = policy_from_file;
  }

  policy_context_same :
      (g : GlobalOptions)
      → g.insecure_policy ≡ true
      → get_policy_context images g ≡ get_policy_context with_policies g
  unfolding get_policy_context choose_policy policy_source
  policy_context_same g h = rw h

  obtain_policy_same :
      (src dest : Bytes) (w : World O)
      → w.opts.global.insecure_policy ≡ true
      → obtain_policy images src dest w ≡ obtain_policy with_policies src dest w
  unfolding obtain_policy warn_if_used reexec_if_necessary_for_images ◌>>=◌
  obtain_policy_same src dest w h = rw (policy_context_same w.opts.global h)

  copy_same :
      (src dest : Bytes) (w : World O)
      → w.opts.global.insecure_policy ≡ true
      → copy images src dest w ≡ copy with_policies src dest w
  unfolding copy copy_with manifest_type attempt ◌>>=◌
  copy_same src dest w h = rw (obtain_policy_same src dest w h)

  pub copy-AgreeInsecure :
      AgreeInsecure (MirrorCopy.service images) (MirrorCopy.service with_policies)
  copy-AgreeInsecure = record { at = λ src dest mode w h. copy_same src dest w h }
