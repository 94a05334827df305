-- ===== src/Manifest/Untar/Frame.antt =====
-- What `untar` can change.
use golang_imageindex_list.Prelude.{
  Bytes, codes, List, [], ◌∷◌, Option, none, some, ◌≡◌, true, not, bytes_eq, ◌==◌,
}
use golang_imageindex_list.Strings.{contains}
use golang_imageindex_list.Os.{Os}
use golang_imageindex_list.Log.Keeps.{
  Keeps, Keeps-pure, Keeps-fail, Keeps-os_call, Keeps-wrapped, Keeps-if, Keeps-bind, Keeps-print,
  Keeps-lift,
}
use golang_imageindex_list.Manifest.Formats.{Formats, Header, TarItem, entry, broken}
use golang_imageindex_list.Manifest.Untar.{
  type_dir, type_reg, target, trim_label, copy_problem, copy_content, make_dir, make_file,
  extract_entry, untar_loop, untar,
}

-- `P` is kept by every write at the path.
pub record KeptAt (O : Os) (P : O.State → Type 0) (file : Bytes) : Type 0 where
  pub mkdir_all : (s : O.State) → P s → P (O.mkdir_all s file).1
  pub create : (s : O.State) → P s → P (O.create s file).1
  pub copy : (content : Bytes) (s : O.State) → P s → P (O.copy s file content).1

-- `P` is kept by every write at a path `path/name` whose name contains the text.
pub record KeptUnder (O : Os) (P : O.State → Type 0) (path text : Bytes) : Type 0 where
  pub at : (h : Header) → contains h.name text ≡ true → KeptAt O P (target path h)

module _ (Q : Bytes → Type 0) (path text : Bytes) where
  -- Every path that an entry goes to whose name contains the text has the property.
  unfoldable pub Targets : List TarItem → Type 0
  Targets [] = Unit
  Targets (broken e ∷ items) = Targets items
  Targets (entry h content problem ∷ items) =
      (contains h.name text ≡ true → Q (target path h)) × Targets items

module _ {O : Os} {P : O.State → Type 0} (path : Bytes) where
  copy_problem-Keeps : (problem : Option Bytes) → Keeps O P (copy_problem {O = O} problem)
  unfolding copy_problem
  copy_problem-Keeps none = Keeps-pure tt
  copy_problem-Keeps (some e) = Keeps-fail e

  extract_entry-Keeps :
      (h : Header) (content : Bytes) (problem : Option Bytes)
      → KeptAt O P (target path h)
      → Keeps O P (extract_entry {O = O} path h content problem)
  unfolding extract_entry make_dir make_file copy_content
  extract_entry-Keeps h content problem kept =
      Keeps-if (h.typeflag == type_dir) _ _
        (λ _.
          Keeps-if (not (bytes_eq h.name (codes "./"))) _ _
            (λ _. Keeps-wrapped _ _ (Keeps-os_call _ (λ s q. kept.mkdir_all s q)))
            (λ _. Keeps-pure tt))
        (λ _.
          Keeps-if (h.typeflag == type_reg) _ _
            (λ _.
              Keeps-bind _ _ (Keeps-wrapped _ _ (Keeps-os_call _ (λ s q. kept.create s q))) (λ _.
                Keeps-wrapped _ _ (
                  Keeps-bind _ _ (Keeps-os_call _ (λ s q. kept.copy content s q))
                    (λ _. copy_problem-Keeps problem))))
            (λ _. Keeps-print _))

module _ {O : Os} {P : O.State → Type 0} (path text : Bytes) where
  -- What is kept at the paths that the entries go to is kept by their extraction.
  pub untar_loop-Keeps :
      (items : List TarItem)
      → Targets (KeptAt O P) path text items
      → Keeps O P (untar_loop {O = O} path text items)
  unfolding untar_loop Targets
  untar_loop-Keeps [] kept = Keeps-pure tt
  untar_loop-Keeps (broken e ∷ items) kept = Keeps-fail _
  untar_loop-Keeps (entry h content problem ∷ items) (here, later) =
      Keeps-bind _ _
        (Keeps-if (contains h.name text) _ _
          (λ m. extract_entry-Keeps path h content problem (here m)) (λ _. Keeps-pure tt))
        (λ _. untar_loop-Keeps items later)

  pub under-Targets :
      KeptUnder O P path text → (items : List TarItem) → Targets (KeptAt O P) path text items
  unfolding Targets
  under-Targets kept [] = tt
  under-Targets kept (broken e ∷ items) = under-Targets kept items
  under-Targets kept (entry h content problem ∷ items) = (kept.at h, under-Targets kept items)

module _ {O : Os} {P : O.State → Type 0} (formats : Formats) (path label : Bytes) where
  -- Whatever holds of the file system and is kept by writing at paths `path/name`, where the name
  -- contains the label without its separators, holds after `untar`, however that ends.
  pub untar-Keeps :
      KeptUnder O P path (trim_label label)
      → (stream : Bytes) → Keeps O P (untar {O = O} formats stream path label)
  unfolding untar
  untar-Keeps kept stream = Keeps-bind _ _ (Keeps-wrapped _ _ (Keeps-lift _)) (λ archive.
      untar_loop-Keeps path (trim_label label) _
        (under-Targets path (trim_label label) kept (formats.tar_items archive)))
