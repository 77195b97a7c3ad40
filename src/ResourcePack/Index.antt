-- ===== src/ResourcePack/Index.antt =====
-- internal/resourcepack/decrypt.go: the part of `DecryptArchive` that indexes the entries and finds
-- the pack's manifest and its contents manifests.
use bedrock_debug_proxy.Base.{
  ℕ, ◌+◌, List, [], ◌∷◌, ◌++◌, Bool, true, false, Bytes, length, drop, lookup, bytes_eq, ◌==◌, ltb,
  if◌then◌else◌, ◌&&◌, ◌||◌, not, is_some,
}
use bedrock_debug_proxy.ResourcePack.Paths.{
  Text, is_empty, has_prefix, elements, clean_archive_path,
}
use bedrock_debug_proxy.ResourcePack.Entry.{ZipFile}
use bedrock_debug_proxy.ResourcePack.Outcome.{
  Outcome, done, ◌>>=◌, ◌>>◌, guard, from_path, duplicate_entry,
}

abbrev pub manifest_json : Bytes
manifest_json =
    b'm' ∷ b'a' ∷ b'n' ∷ b'i' ∷ b'f' ∷ b'e' ∷ b's' ∷ b't' ∷ b'.' ∷ b'j' ∷ b's' ∷ b'o' ∷ b'n' ∷ []

abbrev pub contents_json : Bytes
contents_json =
    b'c' ∷ b'o' ∷ b'n' ∷ b't' ∷ b'e' ∷ b'n' ∷ b't' ∷ b's' ∷ b'.' ∷ b'j' ∷ b's' ∷ b'o' ∷ b'n' ∷ []

abbrev pub subpacks : Bytes
subpacks = b's' ∷ b'u' ∷ b'b' ∷ b'p' ∷ b'a' ∷ b'c' ∷ b'k' ∷ b's' ∷ []

-- The names with their files, in the order of the archive: `orderedNames` and the map `files`.
unfoldable pub index_files :
    Text
    → List (Bytes × ZipFile)
    → (files : List (Bytes × ZipFile)) → Outcome (List (Bytes × ZipFile))
index_files text [] files = done files
index_files text ((raw_name, file) ∷ more) files = do
  name ← from_path (clean_archive_path text raw_name file.is_dir)
  guard (not (is_some (lookup name files))) (duplicate_entry name)
  index_files text more (files ++ (name, file) ∷ [])

unfoldable pub manifest_paths : Text → List (Bytes × ZipFile) → List Bytes
manifest_paths text [] = []
manifest_paths text ((name, file) ∷ files) =
    let paths = manifest_paths text files in
    if not file.is_dir && bytes_eq (text.base name) manifest_json then name ∷ paths else paths

-- The order of strings.
unfoldable pub bytes_less : Bytes → Bytes → Bool
bytes_less left [] = false
bytes_less [] (y ∷ right) = true
bytes_less (x ∷ left) (y ∷ right) = ltb x y || ((x == y) && bytes_less left right)

-- strings.Count(path, "/").
unfoldable pub depth : Bytes → ℕ
depth [] = 0
depth (b ∷ path) = (if b == b'/' then 1 else 0) + depth path

unfoldable pub less_manifest : Bytes → Bytes → Bool
unfolding depth bytes_less
less_manifest left right =
    if not (depth left == depth right)
    then ltb (depth left) (depth right)
    else bytes_less left right

-- The first of the sorted paths: no two of them are equal, so that the least one is unique.
unfoldable pub root_manifest : Bytes → List Bytes → Bytes
unfolding less_manifest
root_manifest first [] = first
root_manifest first (path ∷ paths) =
    root_manifest (if less_manifest path first then path else first) paths

module _ (root_contents prefix : Bytes) where
  abbrev pub is_contents_below : List Bytes → Bool
  is_contents_below (subpack ∷ name ∷ []) = not (is_empty subpack) && bytes_eq name contents_json
  is_contents_below _ = false

  unfoldable pub is_subpack_contents : Bytes → ZipFile → Bool
  is_subpack_contents name file =
      not (file.is_dir || (bytes_eq name root_contents || not (has_prefix name prefix)))
      && is_contents_below (elements (drop (length prefix) name))

  abbrev pub insert_name : Bytes → ZipFile → List (Bytes × ZipFile) → List (Bytes × ZipFile)
  insert_name name file [] = (name, file) ∷ []
  insert_name name file ((other, entry) ∷ more) =
      let rest = insert_name name file more in
      if bytes_less other name then (other, entry) ∷ rest else (name, file) ∷ (other, entry) ∷ more

  -- The contents manifests of the subpacks, sorted by name.
  unfoldable pub subpack_contents : List (Bytes × ZipFile) → List (Bytes × ZipFile)
  unfolding is_subpack_contents bytes_less
  subpack_contents [] = []
  subpack_contents ((name, file) ∷ files) =
      let rest = subpack_contents files in
      if is_subpack_contents name file then insert_name name file rest else rest
