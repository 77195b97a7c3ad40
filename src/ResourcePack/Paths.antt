-- ===== src/ResourcePack/Paths.antt =====
-- internal/resourcepack/decrypt.go: the paths of an archive and of a contents manifest. The
-- packages path, strings, unicode and utf8 are a parameter.
pub mod Safe
use bedrock_debug_proxy.Base.{
  ℕ, ◌-◌, List, [], ◌∷◌, ◌++◌, Option, none, some, Bool, true, false, Bytes, length, take, drop,
  bytes_eq, lookup, ◌==◌, ltb, if◌then◌else◌, ◌&&◌, ◌||◌, not,
}

pub record Text : Type 0 where
  pub clean : Bytes → Bytes  -- path.Clean
  pub dir : Bytes → Bytes  -- path.Dir
  pub base : Bytes → Bytes  -- path.Base
  pub to_lower : Bytes → Bytes
  pub valid_string : Bytes → Bool
  pub runes : Bytes → List ℕ  -- the runes of a string
  pub is_control : ℕ → Bool  -- unicode.IsControl
  pub trim_space : Bytes → Bytes  -- bytes.TrimSpace

unfoldable pub has_prefix : Bytes → (prefix : Bytes) → Bool
has_prefix name [] = true
has_prefix [] (p ∷ prefix) = false
has_prefix (b ∷ name) (p ∷ prefix) = (b == p) && has_prefix name prefix

unfoldable pub has_suffix : Bytes → (suffix : Bytes) → Bool
has_suffix name suffix =
    if ltb (length name) (length suffix)
    then false
    else bytes_eq (drop (length name - length suffix) name) suffix

unfoldable pub has_byte : ℕ → Bytes → Bool
has_byte c [] = false
has_byte c (b ∷ bytes) = (b == c) || has_byte c bytes

abbrev pub is_empty : Bytes → Bool
is_empty [] = true
is_empty (b ∷ bytes) = false

abbrev pub slash : Bytes
slash = b'/' ∷ []

abbrev pub dot : Bytes
dot = b'.' ∷ []

abbrev pub parent : Bytes
parent = b'.' ∷ b'.' ∷ []

pub data PathError : Type 0 where
  unsafe_path non_canonical : Bytes → PathError

-- The tests of the name as it stands.
unfoldable pub is_unsafe_name : Text → Bytes → Bool
unfolding has_byte has_prefix
is_unsafe_name text name =
    is_empty name
    || (not (text.valid_string name) || (has_byte b'\\' name || has_prefix name slash))

-- The tests of the cleaned name.
unfoldable pub leaves_archive : Bytes → Bool
unfolding has_prefix
leaves_archive clean =
    bytes_eq clean dot || (bytes_eq clean parent || has_prefix clean (parent ++ slash))

unfoldable pub clean_path : Text → (directory : Bool) → Bytes → Option PathError × Bytes
unfolding is_unsafe_name leaves_archive
clean_path text directory name =
    let clean = text.clean name in
    let full = if directory then clean ++ slash else clean in
    if is_unsafe_name text name
    then (some (unsafe_path name), [])
    else if leaves_archive clean
    then (some (unsafe_path name), [])
    else if not (bytes_eq full name)
    then (some (non_canonical name), [])
    else (none, full)

unfoldable pub clean_archive_path : Text → Bytes → (directory : Bool) → Option PathError × Bytes
unfolding clean_path
clean_archive_path text name directory = clean_path text directory name

unfoldable pub clean_content_path : Text → Bytes → Option PathError × Bytes
unfolding clean_path has_suffix
clean_content_path text name = clean_path text (has_suffix name slash) name

unfoldable pub join_archive_path : Bytes → Bytes → Bytes
join_archive_path [] name = name
join_archive_path (b ∷ prefix) name = (b ∷ prefix) ++ (slash ++ name)

abbrev pub push_byte : ℕ → List Bytes → List Bytes
push_byte b [] = (b ∷ []) ∷ []
push_byte b (part ∷ parts) = (b ∷ part) ∷ parts

-- strings.Split(name, "/"), the elements of a path.
abbrev pub elements : Bytes → List Bytes
elements [] = [] ∷ []
elements (b ∷ bytes) =
    let parts = elements bytes in if b == b'/' then [] ∷ parts else push_byte b parts

-- strings.TrimSuffix(name, "/").
unfoldable pub trim_slash : Bytes → Bytes
trim_slash [] = []
trim_slash (b ∷ []) = if b == b'/' then [] else b ∷ []
trim_slash (b ∷ c ∷ bytes) = b ∷ trim_slash (c ∷ bytes)

module _ {ℓ} {F : Type ℓ} where
  unfoldable pub any_prefixed : Bytes → List (Bytes × F) → Bool
  any_prefixed prefix [] = false
  any_prefixed prefix ((name, file) ∷ files) = has_prefix name prefix || any_prefixed prefix files

  -- `is_dir` is file.FileInfo().IsDir().
  unfoldable pub archive_directory_reference : (is_dir : F → Bool) → Bytes → List (Bytes × F) → Bool
  unfolding trim_slash any_prefixed lookup
  archive_directory_reference is_dir given files =
      let name = trim_slash given in
      let below = any_prefixed (name ++ slash) files in
      if is_empty name then false else elim (lookup name files) [
        | some file ↦ is_dir file
        | none ↦ elim (lookup (name ++ slash) files) [
          | some file ↦ is_dir file || below
          | none ↦ below
        ]
      ]

abbrev pub text_suffixes : List Bytes
text_suffixes =
    (b'.' ∷ b'c' ∷ b'f' ∷ b'g' ∷ [])
    ∷ (b'.' ∷ b'c' ∷ b's' ∷ b'v' ∷ [])
    ∷ (b'.' ∷ b'f' ∷ b's' ∷ b'h' ∷ [])
    ∷ (b'.' ∷ b'g' ∷ b'l' ∷ b's' ∷ b'l' ∷ [])
    ∷ (b'.' ∷ b'h' ∷ b'l' ∷ b's' ∷ b'l' ∷ [])
    ∷ (b'.' ∷ b'i' ∷ b'n' ∷ b'i' ∷ [])
    ∷ (b'.' ∷ b'j' ∷ b's' ∷ b'o' ∷ b'n' ∷ [])
    ∷ (b'.' ∷ b'l' ∷ b'a' ∷ b'n' ∷ b'g' ∷ [])
    ∷ (b'.' ∷ b'm' ∷ b'a' ∷ b't' ∷ b'e' ∷ b'r' ∷ b'i' ∷ b'a' ∷ b'l' ∷ [])
    ∷ (b'.' ∷ b'm' ∷ b'c' ∷ b'm' ∷ b'e' ∷ b't' ∷ b'a' ∷ [])
    ∷ (b'.' ∷ b'm' ∷ b'd' ∷ [])
    ∷ (b'.' ∷ b'p' ∷ b'r' ∷ b'o' ∷ b'p' ∷ b'e' ∷ b'r' ∷ b't' ∷ b'i' ∷ b'e' ∷ b's' ∷ [])
    ∷ (b'.' ∷ b't' ∷ b'x' ∷ b't' ∷ [])
    ∷ (b'.' ∷ b'v' ∷ b's' ∷ b'h' ∷ [])
    ∷ (b'.' ∷ b'x' ∷ b'm' ∷ b'l' ∷ [])
    ∷ (b'.' ∷ b'y' ∷ b'a' ∷ b'm' ∷ b'l' ∷ [])
    ∷ (b'.' ∷ b'y' ∷ b'm' ∷ b'l' ∷ [])
    ∷ []

unfoldable pub any_suffix : Bytes → List Bytes → Bool
unfolding has_suffix
any_suffix name [] = false
any_suffix name (suffix ∷ suffixes) = has_suffix name suffix || any_suffix name suffixes

unfoldable pub is_text_like_resource_path : Text → Bytes → Bool
unfolding any_suffix
is_text_like_resource_path text name = any_suffix (text.to_lower name) text_suffixes
