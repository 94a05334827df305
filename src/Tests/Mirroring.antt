-- ===== src/Tests/Mirroring.antt =====
-- The theorems about a copy, at concrete names and options.
use golang_imageindex_list.Prelude.{codes, [], true, ◌≡◌, ◌↔◌, refl}
use golang_imageindex_list.Exec.{returned, for_each, ◌>>=◌}
use golang_imageindex_list.World.{World}
use golang_imageindex_list.Options.Contexts.{policy_source}
use golang_imageindex_list.Mirror.Copy.{
  warn_if_used, reexec_if_necessary_for_images, choose_policy, get_policy_context, obtain_policy,
  copy_with, copy,
}
use golang_imageindex_list.Mirror.Laws.{copy_destroys}
use golang_imageindex_list.Tests.Memory.{memory}
use golang_imageindex_list.Tests.Values.{images, world}

-- The state when the policy context is there.
abbrev with_policy : World memory
with_policy = (obtain_policy images (codes "docker://a") (codes "oci:b") (world [])).1

copy_destroys_example :
    ((copy images (codes "docker://a") (codes "oci:b") (world [])).1
      ≡ (images.destroy true
          (copy_with images true (codes "docker://a") (codes "oci:b") with_policy).1).1)
    × (((copy images (codes "docker://a") (codes "oci:b") (world [])).0 ≡ returned tt) ↔ (
        ((copy_with images true (codes "docker://a") (codes "oci:b") with_policy).0 ≡ returned tt)
        × ((images.destroy true
              (copy_with images true (codes "docker://a") (codes "oci:b") with_policy).1).0
            ≡ returned tt)))
unfolding obtain_policy warn_if_used reexec_if_necessary_for_images get_policy_context choose_policy
    policy_source for_each ◌>>=◌
copy_destroys_example =
    copy_destroys images (codes "docker://a") (codes "oci:b") (world []) with_policy true refl
