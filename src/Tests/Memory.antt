-- ===== src/Tests/Memory.antt =====
-- A file system in memory, for the runs: the newest entry of a path counts.
use golang_imageindex_list.Prelude.{
  Bool, Bytes, codes, List, [], ◌∷◌, ◌++◌, Option, none, some, ◌||◌, ◌≡◌, ◌∙◌, refl, sym, ap, false,
  inl, inr, Bool-cases, bytes_eq, bytes_eq_sound, if◌then◌else◌,
}
use golang_imageindex_list.Strings.{has_prefix}
use golang_imageindex_list.Exec.{Result, ok, err}
use golang_imageindex_list.Os.{Os, Stat, present, missing}

pub data Node : Type 0 where
  file : Bytes → Node
  dir : Node

abbrev pub Disk : Type 0
Disk = List (Bytes × Node)

abbrev pub lookup : Bytes → Disk → Option Node
lookup path [] = none
lookup path ((p, n) ∷ disk) = if bytes_eq path p then some n else lookup path disk

abbrev pub stat : Option Node → Stat
stat (some n) = present
stat none = missing

abbrev pub bytes_of : Option Node → Result {0} Bytes
bytes_of (some (file b)) = ok b
bytes_of (some dir) = err (codes "is a directory")
bytes_of none = err (codes "no such file or directory")

abbrev pub appended : Bytes → Option Node → Node
appended b (some (file a)) = file (a ++ b)
appended b (some dir) = dir
appended b none = file b

-- The files below a directory, by their whole paths.
abbrev pub below : Bytes → Disk → List Bytes
below path [] = []
below path ((p, n) ∷ disk) =
    if has_prefix p (path ++ codes "/") then p ∷ below path disk else below path disk

abbrev pub without : Bytes → Disk → Disk
without path [] = []
without path ((p, n) ∷ disk) =
    let rest = without path disk in
    if bytes_eq p path || has_prefix p (path ++ codes "/") then rest else (p, n) ∷ rest

-- The path is that directory, or stands below it.
abbrev pub under : Bytes → Bytes → Bool
under path f = bytes_eq f path || has_prefix f (path ++ codes "/")

abbrev pub memory : Os
memory = record {
  State = Disk;
  stat = λ s p. stat (lookup p s);
  read_file = λ s p. bytes_of (lookup p s);
  open_file = λ s p. bytes_of (lookup p s);
  read_dir = λ s p. ok (below p s);
  mkdir_all = λ s p. (ok tt, (p, dir) ∷ s);
  create = λ s p. (ok tt, (p, file []) ∷ s);
  copy = λ s p b. (ok tt, (p, appended b (lookup p s)) ∷ s);
  remove_all = λ s p. (ok tt, without p s);
}

-- What is not below the directory that is removed is left.
pub lookup-without :
    (path f : Bytes) (s : Disk) → under path f ≡ false → lookup f (without path s) ≡ lookup f s
lookup-without path f [] apart = refl
lookup-without path f ((p, n) ∷ s) apart = elim (Bool-cases (bytes_eq f p)) [
  | inl same ↦
      let kept = ap (under path) (sym (bytes_eq_sound f p same)) ∙ apart in rw (kept, same) refl
  | inr other ↦ elim (Bool-cases (under path p)) [
    | inl removed ↦ rw (removed, other) (lookup-without path f s apart)
    | inr kept ↦ rw (kept, other) (lookup-without path f s apart)
  ]
]
