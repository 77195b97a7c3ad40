-- ===== src/ResourcePack/Archive/Entries.antt =====
-- internal/resourcepack/decrypt.go: single entries of a derived archive.
use bedrock_debug_proxy.Base.{
  ℕ, ◌≡◌, ◌≢◌, refl, sym, ap, ◌∙◌, ◌⊎◌, inl, inr, subst, List, [], ◌∷◌, ◌++◌, some, some_eq, true,
  false, not, Bytes, length, lookup, contains, bytes_eq, bytes_eq_sound, is_some, All, All-append,
  Bool-cases,
}
use bedrock_debug_proxy.ResourcePack.Cfb8.Laws.{length-decrypt_bytes}
use bedrock_debug_proxy.ResourcePack.Paths.{
  Text, elements, has_prefix, slash, is_text_like_resource_path, clean_archive_path,
}
use bedrock_debug_proxy.ResourcePack.Paths.Safe.{Inside, CleanLaws, clean_archive_path-Inside}
use bedrock_debug_proxy.ResourcePack.Entry.{ZipFile, looks_like_plaintext}
use bedrock_debug_proxy.ResourcePack.Manifest.{Library}
use bedrock_debug_proxy.ResourcePack.Index.{index_files}
use bedrock_debug_proxy.ResourcePack.Emit.{Sink, Emitting, Plan, emit_all}
use bedrock_debug_proxy.ResourcePack.Emit.Content.{
  FileContent, Content, Derived, derived_end, derived_skip, derived_entry,
}
use bedrock_debug_proxy.ResourcePack.Emit.Derivation.{emit_all-derives}
use bedrock_debug_proxy.ResourcePack.Outcome.{
  Outcome, done, refused, is_refused, from_path, bind-done, guard-done, done_eq, from_path-done,
  duplicate_entry,
}
use bedrock_debug_proxy.ResourcePack.Archive.{Decrypted, decrypt_archive}
use bedrock_debug_proxy.ResourcePack.Archive.Results.{decrypt_archive-Derived}

module _ (lib : Library) (plan : Plan) where
  Derived-lookup :
      {files : List (Bytes × ZipFile)} {written : List (Bytes × Bytes)} (name : Bytes)
      (file : ZipFile)
      → Derived lib plan files written
      → lookup name files ≡ some file
      → contains name plan.contents_set ≡ false
      → (file.is_symlink ≡ false)
        × (bytes : Bytes) × (lookup name written ≡ some bytes)
        × Content lib plan name file bytes
  unfolding lookup
  Derived-lookup name file derived_end found kept = absurd (cc)
  Derived-lookup name file (derived_skip other entry skip derived) found kept =
      elim (Bool-cases (bytes_eq other name)) [
        | inl same ↦ absurd (
            cc (
              skip,
              kept,
              ap (λ (n : Bytes). contains n plan.contents_set) (bytes_eq_sound other name same),
            ))
        | inr differs ↦ Derived-lookup name file derived (rw differs at found) kept
      ]
  Derived-lookup name file (derived_entry other entry bytes used link content derived) found kept =
      elim (Bool-cases (bytes_eq other name)) [
        | inl same ↦
            let is : entry ≡ file = some_eq entry file (rw same at found) in
            let name_is = bytes_eq_sound other name same in
            (
              ap (λ (f : ZipFile). f.is_symlink) (sym is) ∙ link,
              bytes,
              rw same refl,
              subst (λ (f : ZipFile). Content lib plan name f bytes) is
                  (subst (λ (n : Bytes). Content lib plan n entry bytes) name_is content),
            )
        | inr differs ↦
            let (plain, here, e, c) = Derived-lookup name file derived (rw differs at found) kept in
            (plain, here, rw differs e, c)
      ]

-- An entry that the loop does not accept: a symbolic link, or a file that is not regular, or a file
-- whose bytes in the archive are not as many as it declares, whatever its key and its text.
abbrev pub Unacceptable : ZipFile → Type 0
Unacceptable file =
    (file.is_symlink ≡ true)
    ⊎ ((file.is_dir ≡ false)
        × ((file.is_regular ≡ false) ⊎ (length file.contents.bytes ≢ file.size)))

length-FileContent :
    (lib : Library) (name : Bytes) (size : ℕ) (key source bytes : Bytes)
    → FileContent lib name size key source bytes
    → length bytes ≡ length source
length-FileContent lib name size key source bytes (inl (_, same)) = ap length same
length-FileContent lib name size key source bytes (inr (_, inl (decrypts, _))) =
    length-decrypt_bytes lib.new_cipher key source bytes decrypts
length-FileContent lib name size key source bytes (inr (_, inr (same, _, _, _, _, _))) =
    ap length same

Unacceptable-Content :
    (lib : Library) (plan : Plan) (name : Bytes) (file : ZipFile) (bytes : Bytes)
    → file.is_symlink ≡ false
    → Content lib plan name file bytes
    → Unacceptable file
    → ⊥
Unacceptable-Content lib plan name file bytes link content (inl linked) = cc
Unacceptable-Content lib plan name file bytes link (inl (directory, _)) (inr (entry, bad)) = cc
Unacceptable-Content lib plan name file bytes link (inr (_, regular, size, _, _, _))
      (inr (entry, inl irregular)) =
    cc
Unacceptable-Content lib plan name file bytes link (inr (_, _, size, key, _, content))
      (inr (entry, inr wrong)) =
    wrong (sym (length-FileContent lib name file.size key file.contents.bytes bytes content) ∙ size)

module _ (lib : Library) (sink : Sink) (plan : Plan) where
  -- One entry that is a symbolic link, or a file that is not regular, or a file whose bytes in the
  -- archive are not as many as it declares, with a key or without one and wherever it stands, unless
  -- it is a contents manifest, has the whole archive refused.
  pub emit_all-refuses :
      (files : List (Bytes × ZipFile)) (s : Emitting) (name : Bytes) (file : ZipFile)
      → lookup name files ≡ some file
      → contains name plan.contents_set ≡ false
      → Unacceptable file
      → is_refused (emit_all lib sink plan files s) ≡ true
  emit_all-refuses files s name file found kept bad =
      by_outcome (emit_all lib sink plan files s) refl
    where
      by_outcome : (o : Outcome Emitting) → emit_all lib sink plan files s ≡ o → is_refused o ≡ true
      by_outcome (refused e) h = refl
      by_outcome (done s') h =
          let ((more, _, derived), _) = emit_all-derives lib sink plan files s s' h in
          let (link, bytes, _, content) = Derived-lookup lib plan name file derived found kept in
          absurd (Unacceptable-Content lib plan name file bytes link content bad)

-- A text of the archive is decrypted too, unless its source looks like plaintext and its decryption
-- does not.
abbrev pub LooksEncrypted : Library → (name source plain : Bytes) → Type 0
LooksEncrypted lib name source plain =
    (is_text_like_resource_path lib.text name ≡ false)
    ⊎ ((looks_like_plaintext lib.text source ≡ false)
        ⊎ (looks_like_plaintext lib.text plain ≡ true))

-- Relative names that stay inside the archive.
abbrev pub InsideName {ℓ} : {V : Type ℓ} → Bytes × V → Type 0
InsideName (name, v) = (has_prefix name slash ≡ false) × All Inside (elements name)

index_files-Inside :
    (text : Text) (entries files found : List (Bytes × ZipFile))
    → CleanLaws text
    → All InsideName files
    → index_files text entries files ≡ done found
    → All InsideName found
unfolding index_files
index_files-Inside text [] files found laws all h =
    subst (λ (x : List (Bytes × ZipFile)). All InsideName x) (done_eq files found h) all
index_files-Inside text ((raw, file) ∷ entries) files found laws all h =
    let (name, e, h1) = bind-done (from_path (clean_archive_path text raw file.is_dir)) _ found h in
    let (_, h2) =
      guard-done (not (is_some (lookup name files))) (duplicate_entry name) _ found h1 in
    let (_, relative, inside) =
      clean_archive_path-Inside text raw name file.is_dir laws
        (from_path-done (clean_archive_path text raw file.is_dir) name e) in
    index_files-Inside text entries (files ++ (name, file) ∷ []) found laws
      (All-append InsideName files ((name, file) ∷ []) all ((relative, inside), tt)) h2

Derived-Inside :
    {lib : Library} {plan : Plan} {files : List (Bytes × ZipFile)} {written : List (Bytes × Bytes)}
    → Derived lib plan files written
    → All InsideName files
    → All InsideName written
Derived-Inside derived_end all = tt
Derived-Inside (derived_skip name file skip derived) all = Derived-Inside derived all.1
Derived-Inside (derived_entry name file bytes kept link content derived) all =
    (all.0, Derived-Inside derived all.1)

-- With what path.Clean promises, no entry of a derived archive has a name that starts with a slash
-- or that has an element `..`: joined to a folder, it names nothing outside the folder.
pub decrypt_archive-Inside :
    (lib : Library) (sink : Sink) (entries : List (Bytes × ZipFile)) (key : Bytes)
    (result : Decrypted)
    → CleanLaws lib.text
    → decrypt_archive lib sink (some entries) key ≡ done result
    → All InsideName result.written
decrypt_archive-Inside lib sink entries key result laws h =
    let d = decrypt_archive-Derived lib sink entries key result h in
    Derived-Inside d.derived (index_files-Inside lib.text entries [] d.files laws tt d.indexes)
