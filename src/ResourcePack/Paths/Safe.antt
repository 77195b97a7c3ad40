-- ===== src/ResourcePack/Paths/Safe.antt =====
-- internal/resourcepack/decrypt.go: no accepted path leaves the archive.
use bedrock_debug_proxy.Base.{
  ℕ, ◌≡◌, ◌≢◌, refl, sym, ap, ◌∙◌, ◌⊎◌, inl, inr, subst, List, [], ◌∷◌, ◌++◌, none, Bool, true,
  false, Bytes, bytes_eq, bytes_eq_sound, ◌==◌, if◌then◌else◌, All, All-append, arith, Bool-cases,
}
use bedrock_debug_proxy.ResourcePack.Paths.{
  Text, has_prefix, has_suffix, is_unsafe_name, leaves_archive, clean_path, clean_archive_path,
  clean_content_path, push_byte, elements, slash, parent,
}

abbrev pub first_element : Bytes → Bytes
first_element [] = []
first_element (b ∷ bytes) = let more = first_element bytes in if b == b'/' then [] else b ∷ more

-- An element that is not `..`.
abbrev pub Inside : Bytes → Type 0
Inside e = e ≢ parent

-- What path.Clean promises of a path with no slash in front: `..` elements stand only at the
-- beginning of the result.
pub record CleanLaws (text : Text) : Type 0 where
  pub parents_first :
      (name : Bytes)
      → has_prefix name slash ≡ false
      → (first_element (text.clean name) ≡ parent) ⊎ All Inside (elements (text.clean name))

first_element-parent : (bytes : Bytes) → first_element bytes ≡ parent → leaves_archive bytes ≡ true
unfolding leaves_archive has_prefix bytes_eq
first_element-parent [] h = absurd (cc)
first_element-parent (a ∷ []) h = ground (arith, h)
first_element-parent (a ∷ b ∷ []) h = ground (arith, h)
first_element-parent (a ∷ b ∷ c ∷ rest) h = ground (arith, h)

push_byte-append :
    (b : ℕ) (parts : List Bytes)
    → parts ≢ []
    → push_byte b (parts ++ [] ∷ []) ≡ push_byte b parts ++ [] ∷ []
push_byte-append b [] h = absurd (h refl)
push_byte-append b (part ∷ parts) h = refl

elements-ne-nil : (bytes : Bytes) → elements bytes ≢ []
elements-ne-nil [] h = cc
elements-ne-nil (b ∷ bytes) h = elim (Bool-cases (b == b'/')) [
  | inl break ↦ absurd (cc (rw break at h))
  | inr other ↦ push-ne-nil (elements bytes) (rw other at h)
]
  where
    push-ne-nil : (parts : List Bytes) → push_byte b parts ≢ []
    push-ne-nil [] e = cc
    push-ne-nil (part ∷ parts) e = cc

elements-append : (bytes : Bytes) → elements (bytes ++ slash) ≡ elements bytes ++ [] ∷ []
elements-append [] = refl
elements-append (b ∷ bytes) = elim (Bool-cases (b == b'/')) [
  | inl break ↦ rw break (ap (λ (x : List Bytes). [] ∷ x) (elements-append bytes))
  | inr other ↦ rw other (
      ap (push_byte b) (elements-append bytes)
      ∙ push_byte-append b (elements bytes) (elements-ne-nil bytes))
]

directory-Inside :
    (directory : Bool) (clean : Bytes)
    → All Inside (elements clean)
    → All Inside (elements (if directory then clean ++ slash else clean))
directory-Inside false clean h = h
directory-Inside true clean h =
    subst (All Inside) (sym (elements-append clean))
      (All-append Inside (elements clean) ([] ∷ []) h ((λ e. cc), tt))

clean_path-Inside :
    (text : Text) (directory : Bool) (name full : Bytes)
    → CleanLaws text
    → clean_path text directory name ≡ (none, full)
    → (full ≡ name) × (has_prefix full slash ≡ false) × All Inside (elements full)
unfolding clean_path is_unsafe_name
clean_path-Inside text directory name full laws h =
    let clean = text.clean name in
    let whole = if directory then clean ++ slash else clean in
    let safe : is_unsafe_name text name ≡ false = ground (arith, h) in
    let stays : leaves_archive clean ≡ false = ground (arith, h) in
    let canonical : bytes_eq whole name ≡ true = ground (arith, h) in
    let is : whole ≡ full = ground (arith, h) in
    let same : full ≡ name = sym is ∙ bytes_eq_sound whole name canonical in
    let relative : has_prefix name slash ≡ false = ground (arith, safe) in
    let inside : All Inside (elements clean) = elim (laws.parents_first name relative) [
      | inl leads ↦ absurd (cc (stays, first_element-parent clean leads))
      | inr all ↦ all
    ] in
    (
      same,
      ap (λ x. has_prefix x slash) same ∙ relative,
      subst (λ x. All Inside (elements x)) is (directory-Inside directory clean inside),
    )

-- A path of an archive's entry that is accepted is the entry's own name; it has no slash in front,
-- and none of its elements is `..`, so that no entry is written outside the derived archive's root.
pub clean_archive_path-Inside :
    (text : Text) (name full : Bytes) (directory : Bool)
    → CleanLaws text
    → clean_archive_path text name directory ≡ (none, full)
    → (full ≡ name) × (has_prefix full slash ≡ false) × All Inside (elements full)
unfolding clean_archive_path
clean_archive_path-Inside text name full directory laws h =
    clean_path-Inside text directory name full laws h

-- A path in a contents manifest that is accepted is the one that the manifest has; with what
-- path.Clean promises, it has no slash in front, and none of its elements is `..`.
pub clean_content_path-Inside :
    (text : Text) (name full : Bytes)
    → CleanLaws text
    → clean_content_path text name ≡ (none, full)
    → (full ≡ name) × (has_prefix full slash ≡ false) × All Inside (elements full)
unfolding clean_content_path
clean_content_path-Inside text name full laws h =
    clean_path-Inside text (has_suffix name slash) name full laws h
