-- ===== src/Manifest/Untar/Contents.antt =====
-- What can be read of the files that `untar` extracts.
use mathlib.Core.Path.{subst}
use golang_imageindex_list.Prelude.{
  Bytes, List, [], ◌∷◌, ◌++◌, none, ◌≡◌, sym, ap, ◌==◌, if◌then◌else◌, true, inl, inr,
}
use golang_imageindex_list.Strings.{contains}
use golang_imageindex_list.Exec.{ok, Result-cases, returned, Exec, pure, fail, ◌>>=◌}
use golang_imageindex_list.Exec.Laws.{sequence_returned}
use golang_imageindex_list.Os.{Os}
use golang_imageindex_list.Os.Files.{IsFileSystem}
use golang_imageindex_list.World.{World, os_call}
use golang_imageindex_list.Log.Keeps.{Keeps}
use golang_imageindex_list.Manifest.Formats.{Formats, Header, TarItem, entry, broken}
use golang_imageindex_list.Manifest.Untar.{
  type_dir, type_reg, target, trim_label, copy_problem, copy_content, make_file, extract_entry,
  untar_loop, untar,
}
use golang_imageindex_list.Manifest.Untar.Frame.{KeptAt, Targets, untar_loop-Keeps}

-- No matching entry goes to the file.
abbrev pub AllApart : (Bytes → Bytes → Type 0) → Bytes → Bytes → Bytes → List TarItem → Type 0
AllApart Apart path text file = Targets (λ p. Apart p file) path text

-- A regular entry whose name matches.
pub record IsFile (text : Bytes) (h : Header) : Type 0 where
  pub regular : h.typeflag ≡ type_reg
  pub matches : contains h.name text ≡ true

module _ {O : Os} {Apart : Bytes → Bytes → Type 0} (files : IsFileSystem O Apart)
    (path text : Bytes) where
  -- The content that a file has is kept by writes apart from it.
  Apart-KeptAt :
      (file content other : Bytes)
      → Apart other file
      → KeptAt O (λ s. O.read_file s file ≡ ok content) other
  Apart-KeptAt file content other apart = record {
    mkdir_all = λ s h. files.mkdir_apart s other file content apart h;
    create = λ s h. files.create_apart s other file content apart h;
    copy = λ b s h. files.copy_apart s other file content b apart h;
  }

  pub Apart-Targets :
      (file content : Bytes) (items : List TarItem)
      → AllApart Apart path text file items
      → Targets (KeptAt O (λ s. O.read_file s file ≡ ok content)) path text items
  unfolding Targets
  Apart-Targets file content [] apart = tt
  Apart-Targets file content (broken e ∷ items) apart = Apart-Targets file content items apart
  Apart-Targets file content (entry h c problem ∷ items) (here, later) =
      (λ m. Apart-KeptAt file content _ (here m), Apart-Targets file content items later)

  pub rest-Keeps :
      (file content : Bytes) (items : List TarItem)
      → AllApart Apart path text file items
      → Keeps O (λ s. O.read_file s file ≡ ok content) (untar_loop {O = O} path text items)
  rest-Keeps file content items apart =
      untar_loop-Keeps path text items (Apart-Targets file content items apart)

  make_file-contents :
      (h : Header) (content : Bytes) (w : World O)
      → (make_file path h content none w).0 ≡ returned tt
      → O.read_file (make_file path h content none w).1.os (target path h) ≡ ok content
  unfolding make_file copy_content copy_problem os_call ◌>>=◌
  make_file-contents h content w done =
      let made = O.create w.os (target path h) in
      elim (Result-cases made.0) [
        | inl (_, e) ↦ elim (Result-cases (O.copy made.1 (target path h) content).0) [
          | inl (_, e') ↦
              rw (e, e')
                (files.read-copy made.1 (target path h) content
                  (files.read-create w.os (target path h) e) e')
          | inr (d, e') ↦ absurd (cc (rw (e, e') at done))
        ]
        | inr (d, e) ↦ absurd (cc (rw e at done))
      ]

  extract_file :
      (h : Header) (content : Bytes)
      → IsFile text h
      → (if contains h.name text then extract_entry {O = O} path h content none else pure tt)
        ≡ make_file path h content none
  unfolding extract_entry
  extract_file h content file = rw (
    file.matches,
    ap (λ flag. flag == type_dir) file.regular,
    ap (λ flag. flag == type_reg) file.regular,
  )

  untar_loop-contents :
      (before : List TarItem) (h : Header) (content : Bytes) (later : List TarItem)
      → IsFile text h
      → AllApart Apart path text (target path h) later
      → (w : World O)
      → (untar_loop path text (before ++ entry h content none ∷ later) w).0 ≡ returned tt
      → O.read_file
          (untar_loop path text (before ++ entry h content none ∷ later) w).1.os
          (target path h)
        ≡ ok content
  unfolding untar_loop
  untar_loop-contents [] h content later file apart w done =
      let m : Exec (World O) (Unit {0}) =
        (if contains h.name text then extract_entry path h content none else pure tt) in
      let (made, now) = sequence_returned m (untar_loop path text later) w done in
      subst (λ r. O.read_file r.1.os (target path h) ≡ ok content) (sym now)
        ((rest-Keeps (target path h) content later apart).at (m w).1 (
          subst (λ m. O.read_file (m w).1.os (target path h) ≡ ok content)
            (sym (extract_file h content file))
            (make_file-contents h content w
              (subst (λ m. (m w).0 ≡ returned tt) (extract_file h content file) made))))
  untar_loop-contents (broken e ∷ before) h content later file apart w done =
      absurd (unfold fail in cc)
  untar_loop-contents (entry k c problem ∷ before) h content later file apart w done =
      let m : Exec (World O) (Unit {0}) =
        (if contains k.name text then extract_entry path k c problem else pure tt) in
      let rest = before ++ entry h content none ∷ later in
      let (made, now) = sequence_returned m (untar_loop path text rest) w done in
      subst (λ r. O.read_file r.1.os (target path h) ≡ ok content) (sym now)
        (untar_loop-contents before h content later file apart (m w).1
          (subst (λ r. r.0 ≡ returned tt) now done))

-- A file of an archive: a regular entry, whole, whose name matches, and which no later matching entry
-- overwrites.
pub record HoldsFile (Apart : Bytes → Bytes → Type 0) (path text : Bytes) (items : List TarItem)
    (h : Header) (content : Bytes) : Type 0 where
  pub before : List TarItem
  pub later : List TarItem
  pub order : items ≡ before ++ entry h content none ∷ later
  pub file : IsFile text h
  pub apart : AllApart Apart path text (target path h) later

module _ {O : Os} {Apart : Bytes → Bytes → Type 0} (files : IsFileSystem O Apart)
    (formats : Formats) (path label : Bytes) (h : Header) (content : Bytes) where
  items_contents :
      (items : List TarItem)
      → HoldsFile Apart path (trim_label label) items h content
      → (w : World O) → (untar_loop path (trim_label label) items w).0 ≡ returned tt
      → O.read_file (untar_loop path (trim_label label) items w).1.os (target path h) ≡ ok content
  items_contents items holds w =
      subst
        (λ items.
          (untar_loop path (trim_label label) items w).0 ≡ returned tt
          → O.read_file (untar_loop path (trim_label label) items w).1.os (target path h)
            ≡ ok content)
        (sym holds.order)
        (untar_loop-contents files path (trim_label label) holds.before h content holds.later
          holds.file holds.apart w)

  -- If `untar` succeeds, then every file of the archive, that is every regular entry that is whole,
  -- whose name contains the label without its separators, and that no later such entry overwrites,
  -- can be read back below the path with its content.
  pub untar-contents :
      (gz stream : Bytes)
      → formats.gzip_reader gz ≡ ok stream
      → HoldsFile Apart path (trim_label label) (formats.tar_items stream) h content
      → (w : World O) → (untar formats gz path label w).0 ≡ returned tt
      → O.read_file (untar formats gz path label w).1.os (target path h) ≡ ok content
  unfolding untar ◌>>=◌
  untar-contents gz stream opened holds w done =
      rw opened (items_contents (formats.tar_items stream) holds w (rw opened at done))
