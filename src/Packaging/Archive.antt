-- ===== src/Packaging/Archive.antt =====
-- internal/packaging: writing a release archive, and the layout that it must have. The ZIP format is a
-- parameter: what a reader sees of an archive is a list of entries.
use cpa_plugin_reset_priorit.Packaging.{
  not_bare, not_regular, unexpected_entry, duplicate_entry, missing_entry, no_files, zip_failed,
  Result, ok, ◌>>=◌, ◌>>◌, guard, require,
}
use cpa_plugin_reset_priorit.Packaging.Names.{library_basename}
use cpa_plugin_reset_priorit.Base.{
  ltb, if◌then◌else◌, has_separator, member, Str, bytes, str_eq, str_lt, is_empty, length, ℕ, Bool,
  not, ◌&&◌, ◌||◌, Option, List, [], ◌∷◌,
}

-- `ArchiveFile`; the mode is its permission bits.
pub record ArchiveFile : Type 0 where
  pub name : Str
  pub mode : ℕ
  pub body : Str

-- An entry of a ZIP as it is written: its modification time is always the epoch of 1980.
pub record Entry : Type 0 where
  pub name : Str
  pub mode : ℕ
  pub year : ℕ
  pub body : Str

-- An entry of a ZIP that has been opened.
pub record Listed : Type 0 where
  pub name : Str
  pub regular : Bool

-- `archive/zip`: the bytes of a list of entries, and the entries of some bytes.
pub record Zip : Type 0 where
  pub render : List Entry → Option Str
  pub open_zip : Str → Option (List Listed)

unfoldable pub is_bare : Str → Bool
unfolding has_separator
is_bare name = not (is_empty name) && not (has_separator name)

unfoldable pub insert_file : ArchiveFile → List ArchiveFile → List ArchiveFile
unfolding str_lt
insert_file f [] = f ∷ []
insert_file f (x ∷ xs) =
    let rest = insert_file f xs in if str_lt x.name f.name then x ∷ rest else f ∷ x ∷ xs

-- `sort.Slice` by name.
unfoldable pub sort_files : List ArchiveFile → List ArchiveFile
unfolding insert_file
sort_files [] = []
sort_files (f ∷ fs) = insert_file f (sort_files fs)

-- The headers of the sorted files, after the files whose names are `seen`.
unfoldable pub headers : List Str → List ArchiveFile → Result (List Entry)
unfolding is_bare member
headers seen [] = ok []
headers seen (f ∷ fs) =
    let rest = headers (f.name ∷ seen) fs in
    guard (is_bare f.name) (not_bare f.name)
    >> (guard (not (member f.name seen)) (duplicate_entry f.name)
        >> (rest >>= λ (es : List Entry).
            ok (record { name = f.name; mode = f.mode; year = 1980; body = f.body } ∷ es)))

-- The bytes that `WriteDeterministicZip` has written where it succeeds. Whether an entry is refused by
-- the writer shows only after the checks of the entries before it, so which of two errors comes
-- first is not kept.
unfoldable pub write_deterministic_zip : Zip → List ArchiveFile → Result Str
unfolding headers sort_files
write_deterministic_zip z files = do
  guard (ltb 0 (length files)) no_files
  es ← headers [] (sort_files files)
  require (z.render es) zip_failed

-- The loop of `ValidateArchive`: the names seen.
unfoldable pub validate_entries : Str → List Str → List Listed → Result (List Str)
unfolding is_bare str_eq member
validate_entries lib seen [] = ok seen
validate_entries lib seen (f ∷ fs) =
    let rest = validate_entries lib (f.name ∷ seen) fs in
    guard (is_bare f.name) (not_bare f.name)
    >> (guard f.regular (not_regular f.name)
        >> (guard (str_eq f.name lib || str_eq f.name (bytes "LICENSE")) (unexpected_entry f.name)
            >> (guard (not (member f.name seen)) (duplicate_entry f.name) >> rest)))

unfoldable pub validate_archive : List Listed → Str → Str → Result (Unit {0})
unfolding library_basename validate_entries
validate_archive fs id goos = do
  lib ← library_basename id goos
  seen ← validate_entries lib [] fs
  guard (member lib seen) (missing_entry lib)
  guard (member (bytes "LICENSE") seen) (missing_entry (bytes "LICENSE"))
