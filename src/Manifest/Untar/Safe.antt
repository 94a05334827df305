-- ===== src/Manifest/Untar/Safe.antt =====
-- `untar` does not panic.
use golang_imageindex_list.Prelude.{
  Bytes, codes, List, [], ◌∷◌, Option, none, some, bytes_eq, not, ◌==◌,
}
use golang_imageindex_list.Strings.{contains}
use golang_imageindex_list.Exec.Safe.{
  IsSafe, IsSafe-pure, IsSafe-fail, IsSafe-lift, IsSafe-modify, IsSafe-wrapped, IsSafe-if,
  IsSafe-bind,
}
use golang_imageindex_list.Os.{Os}
use golang_imageindex_list.World.Safe.{IsSafe-os_call}
use golang_imageindex_list.Manifest.Formats.{Formats, Header, TarItem, entry, broken}
use golang_imageindex_list.Manifest.Untar.{
  type_dir, type_reg, copy_problem, copy_content, make_dir, make_file, extract_entry, untar_loop,
  untar,
}

module _ {O : Os} where
  copy_problem-IsSafe : (problem : Option Bytes) → IsSafe (copy_problem {O = O} problem)
  unfolding copy_problem
  copy_problem-IsSafe none = IsSafe-pure tt
  copy_problem-IsSafe (some e) = IsSafe-fail e

  extract_entry-IsSafe :
      (path : Bytes) (h : Header) (content : Bytes) (problem : Option Bytes)
      → IsSafe (extract_entry {O = O} path h content problem)
  unfolding extract_entry make_dir make_file copy_content
  extract_entry-IsSafe path h content problem =
      IsSafe-if (h.typeflag == type_dir) _ _
        (λ _.
          IsSafe-if (not (bytes_eq h.name (codes "./"))) _ _
            (λ _. IsSafe-wrapped _ _ (IsSafe-os_call _)) (λ _. IsSafe-pure tt))
        (λ _.
          IsSafe-if (h.typeflag == type_reg) _ _
            (λ _. IsSafe-bind _ _ (IsSafe-wrapped _ _ (IsSafe-os_call _)) (λ _.
              IsSafe-wrapped _ _
                (IsSafe-bind _ _ (IsSafe-os_call _) (λ _. copy_problem-IsSafe problem))))
            (λ _. IsSafe-modify _))

  untar_loop-IsSafe :
      (path text : Bytes) (items : List TarItem) → IsSafe (untar_loop {O = O} path text items)
  unfolding untar_loop
  untar_loop-IsSafe path text [] = IsSafe-pure tt
  untar_loop-IsSafe path text (broken e ∷ items) = IsSafe-fail _
  untar_loop-IsSafe path text (entry h content problem ∷ items) =
      IsSafe-bind _ _
        (IsSafe-if (contains h.name text) _ _ (λ _. extract_entry-IsSafe path h content problem)
          (λ _. IsSafe-pure tt))
        (λ _. untar_loop-IsSafe path text items)

  pub untar-IsSafe :
      (formats : Formats) (stream path label : Bytes)
      → IsSafe (untar {O = O} formats stream path label)
  unfolding untar
  untar-IsSafe formats stream path label =
      IsSafe-bind _ _ (IsSafe-wrapped _ _ (IsSafe-lift _))
        (λ archive. untar_loop-IsSafe path _ (formats.tar_items archive))
