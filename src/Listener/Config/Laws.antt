-- ===== src/Listener/Config/Laws.antt =====
-- What stands in the list of shared files.
use p2p_demo.Prelude.{
  ℕ, zero, suc, ◌+◌, ◌≡◌, ◌≢◌, refl, inl, inr, true, List, [], ◌∷◌, ◌++◌, none, some, if◌then◌else◌,
  arith, Bool-cases, Option-cases, get_elem?,
}
use p2p_demo.Wire.{Bytes}
use p2p_demo.Wire.CString.{is_empty}
use p2p_demo.Util.Split.{trim, split_by_deli2}
use p2p_demo.Util.Files.{Files, file_exists, get_file_size, readlines}
use p2p_demo.Listener.State.{Listener, FileInfo}
use p2p_demo.Listener.Config.{file_entry, file_line, read_files, read_local_file_conf, cut_at}

-- The file can be opened under its name in the directory, and `index` is its place in the list.
pub record IsFileAt (files : Files) (directory : Bytes) (index : ℕ) (fi : FileInfo) : Type 0 where
  pub at : fi.file_index ≡ index
  pub named : fi.file_name ≢ []
  pub described : fi.keywords ≢ []
  pub exists : file_exists files (directory ++ b'/' ∷ fi.file_name) ≡ true
  pub sized : fi.size ≡ get_file_size files (directory ++ b'/' ∷ fi.file_name)

module _ (files : Files) (directory : Bytes) where
  file_entry-IsFileAt :
      (index : ℕ) (name : Bytes) (kws : List Bytes) (fi : FileInfo)
      → file_entry files directory index name kws ≡ some fi
      → IsFileAt files directory index fi
  unfolding file_entry is_empty
  file_entry-IsFileAt index [] [] fi e = cc
  file_entry-IsFileAt index [] (kw ∷ kws) fi e = cc
  file_entry-IsFileAt index (b ∷ name) [] fi e = cc
  file_entry-IsFileAt index (b ∷ name) (kw ∷ kws) fi e =
      elim (Bool-cases (file_exists files (directory ++ b'/' ∷ (b ∷ name)))) [
        | inl there ↦
            let has_name : (b ∷ name) ≢ [] = λ k. cc in
            let has_keywords : (kw ∷ kws) ≢ [] = λ k. cc in
            let same : _ ≡ fi = ground (arith, there, e) in
            rw (← same) (record {
              at = refl;
              named = has_name;
              described = has_keywords;
              exists = there;
              sized = refl;
            })
        | inr missing ↦ absurd (ground (arith, missing, e))
      ]

  file_line-IsFileAt :
      (index : ℕ) (line : Bytes) (fi : FileInfo)
      → file_line files directory index line ≡ some fi
      → IsFileAt files directory index fi
  unfolding file_line
  file_line-IsFileAt index line fi e = elim (Option-cases (cut_at b':' (trim line))) [
    | inl uncut ↦ absurd (cc (rw (file_line, uncut) at e))
    | inr ((front, back), cut) ↦
        let entry : (if is_empty back
              then none
              else file_entry files directory index (trim front) (split_by_deli2 back b'|'))
            ≡ some fi =
          rw (file_line, cut) at e in
        elim (Bool-cases (is_empty back)) [
          | inl nothing ↦ absurd (cc (rw nothing at entry))
          | inr something ↦
              file_entry-IsFileAt index (trim front) (split_by_deli2 back b'|') fi
                (rw something at entry)
        ]
  ]

  -- Every file of the list stands at the place that its index names.
  abbrev pub IsIndexed : ℕ → List FileInfo → Type 0
  IsIndexed index [] = Unit {0}
  IsIndexed index (fi ∷ fis) = IsFileAt files directory index fi × IsIndexed (index + 1) fis

  read_files-IsIndexed :
      (index : ℕ) (lines : List Bytes) → IsIndexed index (read_files files directory index lines)
  unfolding read_files
  read_files-IsIndexed index [] = tt
  read_files-IsIndexed index (line ∷ lines) =
      elim (Option-cases (file_line files directory index line)) [
        | inl skipped ↦ rw (read_files, skipped) (read_files-IsIndexed index lines)
        | inr (fi, e) ↦
            rw (read_files, e)
              (file_line-IsFileAt index line fi e, read_files-IsIndexed (index + 1) lines)
      ]

  IsIndexed-get :
      (i index : ℕ) (fis : List FileInfo) (fi : FileInfo)
      → IsIndexed index fis
      → get_elem? fis i ≡ some fi
      → IsFileAt files directory (index + i) fi
  IsIndexed-get i index [] fi h e = cc
  IsIndexed-get zero index (f ∷ fis) fi h e =
      let same : f ≡ fi = cc in let here : index + 0 ≡ index = omega arith in rw (here, ← same) h.0
  IsIndexed-get (suc i) index (f ∷ fis) fi h e =
      let there : index + suc i ≡ index + 1 + i = omega arith in
      rw there (IsIndexed-get i (index + 1) fis fi h.1 e)

-- From an empty list, `readLocalFileConf` fills in the files in such a way that the file at any
-- place of the list carries its place as its index, has a name and keywords, can be opened under
-- its name in the directory, and carries the size that `stat` gives.
pub read_local_file_conf-IsFileAt :
    (files : Files) (l : Listener) (i : ℕ) (fi : FileInfo)
    → l.local_files ≡ []
    → get_elem? (read_local_file_conf files l).0.local_files i ≡ some fi
    → IsFileAt files l.conf.local_files_directory i fi
unfolding read_local_file_conf
read_local_file_conf-IsFileAt files l i fi none_yet e =
    elim (Bool-cases (file_exists files l.conf.local_files_file)) [
      | inl there ↦
          let here : 0 + i ≡ i = omega arith in
          rw here at (
            IsIndexed-get files l.conf.local_files_directory i 0 _ fi
              (read_files-IsIndexed files l.conf.local_files_directory 0
                (readlines files l.conf.local_files_file))
              (rw (there, none_yet) at e))
      | inr missing ↦ absurd (cc (rw (missing, none_yet) at e))
    ]
