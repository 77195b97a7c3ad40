-- ===== src/ResourcePack/Declare/Adding.antt =====
-- internal/resourcepack/decrypt.go: what one declaration adds to the gathered ones.
use bedrock_debug_proxy.Base.{
  ℕ, ◌+◌, ◌≡◌, refl, sym, ap, ◌∙◌, ◌⊎◌, inl, inr, subst, List, [], ◌∷◌, Option, none, some, Bool,
  true, false, not, Bytes, length, lookup, contains, All, ◌==◌, ◌||◌, if◌then◌else◌, is_some, arith,
}
use bedrock_debug_proxy.ResourcePack.Paths.{
  is_empty, clean_content_path, join_archive_path, archive_directory_reference,
}
use bedrock_debug_proxy.ResourcePack.Entry.{ZipFile}
use bedrock_debug_proxy.ResourcePack.Manifest.{ContentsEntry, Library}
use bedrock_debug_proxy.ResourcePack.Outcome.{
  done, from_path, bind-done, guard-done, done_eq, declared_twice, missing_entry, keyed_directory,
  bad_entry_key,
}
use bedrock_debug_proxy.ResourcePack.Declare.{
  Declaring, put_declaration, declare_path, declare_entries, key_bytes,
}

-- No path stands twice.
abbrev pub Distinct : List (Bytes × Bytes) → Type 0
Distinct [] = Unit
Distinct ((path, key) ∷ more) = (lookup path more ≡ none) × Distinct more

-- A key is of 32 bytes and for a path that is no directory.
abbrev pub SoundKey : List (Bytes × ZipFile) → Bytes × Bytes → Type 0
SoundKey files (path, key) =
    (is_empty key ≡ true)
    ⊎ ((length key ≡ key_bytes)
        × (archive_directory_reference (λ file. file.is_dir) path files ≡ false))

abbrev pub keyed : Bytes → ℕ
keyed key = if is_empty key then 0 else 1

abbrev pub count_keyed : List (Bytes × Bytes) → ℕ
count_keyed [] = 0
count_keyed ((path, key) ∷ more) = keyed key + count_keyed more

not_some : {A : Type 0} → (o : Option A) → not (is_some o) ≡ true → o ≡ none
not_some none h = refl
not_some (some a) h = absurd (cc)

-- One declaration more.
pub record Adds (files : List (Bytes × ZipFile)) (d d' : Declaring) (n : ℕ) : Type 0 where
  pub distinct : Distinct d'.declarations
  pub sound_keys : All (SoundKey files) d'.declarations
  pub counted : length d'.declarations ≡ length d.declarations + n
  pub encrypted :
      d'.encrypted_files + count_keyed d.declarations
      ≡ d.encrypted_files + count_keyed d'.declarations

put_declaration-declarations :
    (path : Bytes) (directory : Bool) (key : Bytes) (d : Declaring)
    → (put_declaration path directory key d).declarations ≡ (path, key) ∷ d.declarations
unfolding put_declaration
put_declaration-declarations path true key d = refl
put_declaration-declarations path false [] d = refl
put_declaration-declarations path false (b ∷ key) d = refl

put_declaration-encrypted :
    (path : Bytes) (directory : Bool) (key : Bytes) (d : Declaring)
    → (not directory || is_empty key) ≡ true
    → (put_declaration path directory key d).encrypted_files ≡ d.encrypted_files + keyed key
unfolding put_declaration
put_declaration-encrypted path true [] d h = omega arith
put_declaration-encrypted path true (b ∷ key) d h = absurd (cc)
put_declaration-encrypted path false [] d h = omega arith
put_declaration-encrypted path false (b ∷ key) d h = omega arith

sound_key :
    (files : List (Bytes × ZipFile)) (path key : Bytes) (directory : Bool)
    → archive_directory_reference (λ file. file.is_dir) path files ≡ directory
    → (is_empty key || (length key == key_bytes)) ≡ true
    → (not directory || is_empty key) ≡ true
    → SoundKey files (path, key)
sound_key files path [] directory e h k = inl refl
sound_key files path (b ∷ key) true e h k = absurd (cc)
sound_key files path (b ∷ key) false e h k = inr (ground (arith, h), e)

module _ (lib : Library) (files : List (Bytes × ZipFile)) where
  declare_path-Adds :
      (contents_set : List Bytes) (path key : Bytes) (d d' : Declaring)
      → Distinct d.declarations
      → All (SoundKey files) d.declarations
      → declare_path lib files contents_set path key d ≡ done d'
      → Adds files d d' 1
  unfolding declare_path
  declare_path-Adds contents_set path key d d' distinct sound h =
      let directory : Bool = archive_directory_reference (λ file. file.is_dir) path files in
      let final = put_declaration path directory key d in
      let (new, h1) =
        guard-done (not (is_some (lookup path d.declarations))) (declared_twice path) _ d' h in
      let (size, h2) =
        guard-done (is_empty key || (length key == key_bytes)) (bad_entry_key path (length key)) _
          d' h1 in
      let (found, h3) =
        guard-done (contains path contents_set || (is_some (lookup path files) || directory))
          (missing_entry path) _ d' h2 in
      let (keyless, h4) =
        guard-done (not directory || is_empty key) (keyed_directory path) _ d' h3 in
      subst (λ x. Adds files d x 1) (done_eq final d' h4) (put-Adds directory refl new size keyless)
    where
      put-Adds :
          (directory : Bool)
          → archive_directory_reference (λ file. file.is_dir) path files ≡ directory
          → not (is_some (lookup path d.declarations)) ≡ true
          → (is_empty key || (length key == key_bytes)) ≡ true
          → (not directory || is_empty key) ≡ true
          → Adds files d (put_declaration path directory key d) 1
      put-Adds directory e new size keyless =
          let same : (path, key) ∷ d.declarations
              ≡ (put_declaration path directory key d).declarations =
            sym (put_declaration-declarations path directory key d) in
          let first : SoundKey files (path, key) =
            sound_key files path key directory e size keyless in
          record {
            distinct = subst Distinct same (not_some (lookup path d.declarations) new, distinct);
            sound_keys = subst (All (SoundKey files)) same (first, sound);
            counted = ap length (sym same) ∙ omega arith;
            encrypted =
                ap (λ (n : ℕ). n + count_keyed d.declarations)
                  (put_declaration-encrypted path directory key d keyless)
                ∙ omega arith
                ∙ ap (λ (x : List (Bytes × Bytes)). d.encrypted_files + count_keyed x) same;
          }

  pub declare_entries-Adds :
      (contents_set : List Bytes) (base : Bytes) (entries : List ContentsEntry) (d d' : Declaring)
      → Distinct d.declarations
      → All (SoundKey files) d.declarations
      → declare_entries lib files contents_set base entries d ≡ done d'
      → Adds files d d' (length entries)
  unfolding declare_entries
  declare_entries-Adds contents_set base [] d d' distinct sound h =
      subst (λ x. Adds files d x 0) (done_eq d d' h)
        (record {
          distinct = distinct;
          sound_keys = sound;
          counted = omega arith;
          encrypted = refl;
        })
  declare_entries-Adds contents_set base (entry ∷ entries) d d' distinct sound h =
      let (relative, _, h1) =
        bind-done (from_path (clean_content_path lib.text entry.path)) _ d' h in
      let (mid, h2, h3) =
        bind-done
          (declare_path lib files contents_set (join_archive_path base relative) entry.key d)
          (declare_entries lib files contents_set base entries) d' h1 in
      let one =
        declare_path-Adds contents_set (join_archive_path base relative) entry.key d mid distinct
          sound h2 in
      let more =
        declare_entries-Adds contents_set base entries mid d' one.distinct one.sound_keys h3 in
      record {
        distinct = more.distinct;
        sound_keys = more.sound_keys;
        counted = omega (arith, one.counted, more.counted);
        encrypted = omega (arith, one.encrypted, more.encrypted);
      }
