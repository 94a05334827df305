-- ===== src/Tests/Tree.antt =====
-- A file system in memory whose directories are there once something below them is.
use golang_imageindex_list.Prelude.{
  ℕ, Bool, Bytes, codes, List, [], ◌∷◌, ◌++◌, ◌≡◌, ◌∙◌, refl, sym, ap, true, false, ◌||◌, ◌==◌, inl,
  inr, Bool-cases, bytes_eq, bytes_eq_sound, arith, append_assoc,
}
use mathlib.Core.Path.{subst}
use golang_imageindex_list.Strings.{has_prefix}
use golang_imageindex_list.Exec.{Result, ok, err}
use golang_imageindex_list.Os.{Os, Stat, present, missing}
use golang_imageindex_list.Manifest.Layers.{is_missing}
use golang_imageindex_list.Cli.Executor.{logs_dir}
use golang_imageindex_list.Cli.Repeated.{IsThere, IsLasting}
use golang_imageindex_list.Tests.Memory.{Disk, Node, memory, below, under, without}

unfoldable pub inhabited : Bytes → Disk → Bool
inhabited path [] = false
inhabited path ((p, n) ∷ disk) = let rest = inhabited path disk in under path p || rest

abbrev pub stat_of : Bool → Stat
stat_of true = present
stat_of false = missing

abbrev pub names_of : Bool → List Bytes → Result {0} (List Bytes)
names_of true names = ok names
names_of false names = err (codes "no such file or directory")

abbrev pub tree : Os
tree = record memory {
  stat = λ s p. stat_of (inhabited p s);
  read_dir = λ s p. names_of (inhabited p s) (below p s);
}

has_prefix-append : (f a b : Bytes) → has_prefix f (a ++ b) ≡ true → has_prefix f a ≡ true
unfolding has_prefix
has_prefix-append f [] b h = refl
has_prefix-append [] (x ∷ a) b h = h
has_prefix-append (c ∷ f) (x ∷ a) b h = ground (arith, has_prefix-append f a b)

has_prefix_self : (a b : Bytes) → has_prefix (a ++ b) a ≡ true
unfolding has_prefix
has_prefix_self [] b = refl
has_prefix_self (c ∷ a) b = ground (arith, has_prefix_self a b)

or_right : (a : Bool) {b : Bool} → b ≡ true → (a || b) ≡ true
or_right true h = refl
or_right false h = h

under_parent : (dir name f : Bytes) → under (dir ++ codes "/" ++ name) f ≡ true → under dir f ≡ true
under_parent dir name f h = elim (Bool-cases (bytes_eq f (dir ++ codes "/" ++ name))) [
  | inl same ↦
      let inside =
        subst (λ g. has_prefix g (dir ++ codes "/") ≡ true)
          (sym (bytes_eq_sound f (dir ++ codes "/" ++ name) same))
          (has_prefix_self (dir ++ codes "/") name) in
      or_right (bytes_eq f dir) inside
  | inr other ↦ or_right (bytes_eq f dir) (
      has_prefix-append f (dir ++ codes "/") (name ++ codes "/") (
        subst (λ g. has_prefix f g ≡ true) (append_assoc (dir ++ codes "/") name (codes "/"))
          (rw other at h)))
]

inhabited_parent :
    (dir name : Bytes) (s : Disk)
    → inhabited (dir ++ codes "/" ++ name) s ≡ true
    → inhabited dir s ≡ true
unfolding inhabited
inhabited_parent dir name [] h = h
inhabited_parent dir name ((p, n) ∷ s) h = elim (Bool-cases (under (dir ++ codes "/" ++ name) p)) [
  | inl there ↦ rw (under_parent dir name p there) refl
  | inr elsewhere ↦ or_right (under dir p) (inhabited_parent dir name s (rw elsewhere at h))
]

-- What is below the logs is not below a directory whose name begins with another letter.
logs_apart :
    (c : ℕ) (d f : Bytes) → (c == b'l') ≡ false → under logs_dir f ≡ true → under (c ∷ d) f ≡ false
unfolding bytes_eq has_prefix
logs_apart c d [] apart h = refl
logs_apart c d (x ∷ f) apart h = ground arith

inhabited-without :
    (c : ℕ) (d : Bytes) (s : Disk)
    → (c == b'l') ≡ false
    → inhabited (c ∷ d) (without logs_dir s) ≡ inhabited (c ∷ d) s
unfolding inhabited
inhabited-without c d [] apart = refl
inhabited-without c d ((p, n) ∷ s) apart = elim (Bool-cases (under logs_dir p)) [
  | inl removed ↦ rw (removed, logs_apart c d p apart removed) (inhabited-without c d s apart)
  | inr kept ↦ rw kept (ap (λ b. under (c ∷ d) p || b) (inhabited-without c d s apart))
]

stays : (p d : Bytes) (s : Disk) (n : Node) → IsThere tree d s → IsThere tree d ((p, n) ∷ s)
unfolding inhabited
stays p d s n h = elim (Bool-cases (under d p)) [
  | inl here ↦ rw here refl
  | inr elsewhere ↦ rw elsewhere h
]

pub tree-IsLasting :
    (c : ℕ) (d : Bytes) → (c == b'l') ≡ false → IsLasting tree (IsThere tree (c ∷ d))
tree-IsLasting c d apart = record {
  mkdir_all = λ s p. stays p (c ∷ d) s _;
  create = λ s p. stays p (c ∷ d) s _;
  copy = λ s p b. stays p (c ∷ d) s _;
  remove_logs = λ s h. ap (λ b. is_missing (stat_of b)) (inhabited-without c d s apart) ∙ h;
}

named :
    (b a : Bool) (there names : List Bytes)
    → (b ≡ true → a ≡ true)
    → names_of b there ≡ ok names
    → is_missing (stat_of a) ≡ false
named true a there names h e = rw (h refl) refl
named false a there names h e = absurd cc

pub tree_listed_below :
    (s : Disk) (dir name : Bytes) (names : List Bytes)
    → tree.read_dir s (dir ++ codes "/" ++ name) ≡ ok names
    → IsThere tree dir s
tree_listed_below s dir name names =
    named (inhabited (dir ++ codes "/" ++ name) s) (inhabited dir s) _ names
      (inhabited_parent dir name s)
