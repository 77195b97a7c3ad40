-- ===== src/ResourcePack/Declare/Laws.antt =====
-- internal/resourcepack/decrypt.go: what the gathered declarations satisfy.
use bedrock_debug_proxy.Base.{
  ℕ, ◌+◌, ◌-◌, ◌≤◌, ◌≡◌, refl, subst, List, [], ◌∷◌, ◌++◌, true, not, Bytes, length, bytes_eq, All,
  ltb, ◌||◌, arith,
}
use bedrock_debug_proxy.ResourcePack.Paths.{is_empty}
use bedrock_debug_proxy.ResourcePack.Entry.{ZipFile}
use bedrock_debug_proxy.ResourcePack.Manifest.{
  ContentsEntry, ContentsManifest, Library, decrypt_contents_manifest, max_archive_entries,
}
use bedrock_debug_proxy.ResourcePack.Outcome.{
  done, bind-done, guard-done, done_eq, plaintext_limit, declaration_limit, other_content_id,
}
use bedrock_debug_proxy.ResourcePack.Declare.{
  Declaring, Declared, nothing_declared, declare_entries, base_of, declare_manifest,
  declare_manifests, max_contents_plaintext,
}
use bedrock_debug_proxy.ResourcePack.Declare.Adding.{
  Distinct, SoundKey, count_keyed, declare_entries-Adds,
}

abbrev pub sum_encrypted : List ContentsManifest → ℕ
sum_encrypted [] = 0
sum_encrypted (m ∷ more) = m.summary.encrypted_files + sum_encrypted more

abbrev pub sum_plaintext : List ContentsManifest → ℕ
sum_plaintext [] = 0
sum_plaintext (m ∷ more) = length m.plaintext + sum_plaintext more

sum_encrypted-append :
    (xs ys : List ContentsManifest) → sum_encrypted (xs ++ ys) ≡ sum_encrypted xs + sum_encrypted ys
sum_encrypted-append [] ys = omega arith
sum_encrypted-append (x ∷ xs) ys = omega (arith, sum_encrypted-append xs ys)

sum_plaintext-append :
    (xs ys : List ContentsManifest) → sum_plaintext (xs ++ ys) ≡ sum_plaintext xs + sum_plaintext ys
sum_plaintext-append [] ys = omega arith
sum_plaintext-append (x ∷ xs) ys = omega (arith, sum_plaintext-append xs ys)

pub record WellDeclared (files : List (Bytes × ZipFile)) (s : Declared) : Type 0 where
  pub distinct : Distinct s.declarations
  pub sound_keys : All (SoundKey files) s.declarations
  pub counted : length s.declarations ≡ s.total_declarations
  pub within_limit : s.total_declarations ≤ max_archive_entries
  pub plaintext_exact : sum_plaintext s.manifests + s.remaining_plaintext ≡ max_contents_plaintext
  pub encrypted_exact : sum_encrypted s.manifests ≡ count_keyed s.declarations

module _ (lib : Library) (files : List (Bytes × ZipFile)) where
  declare_manifest-WellDeclared :
      (path : Bytes) (found : ContentsManifest × Bytes × List ContentsEntry) (s s' : Declared)
      → WellDeclared files s
      → declare_manifest lib files path found s ≡ done s'
      → WellDeclared files s'
  unfolding declare_manifest
  declare_manifest-WellDeclared path (manifest, content_id, entries) s s' w h =
      let start : Declaring = record {
        declarations = s.declarations;
        encrypted_files = 0;
        plain_files = 0;
      } in
      let (fits, h1) =
        guard-done (not (ltb s.remaining_plaintext (length manifest.plaintext))) plaintext_limit _
          s' h in
      let (few, h2) =
        guard-done (not (ltb (max_archive_entries - s.total_declarations) (length entries)))
          declaration_limit _ s' h1 in
      let (_, h3) =
        guard-done (is_empty s.content_id || bytes_eq s.content_id content_id)
          (other_content_id content_id) _ s' h2 in
      let (d, h4, h5) =
        bind-done
          (declare_entries lib files (path ∷ s.contents_set) (base_of lib path) entries start) _ s'
          h3 in
      let adds =
        declare_entries-Adds lib files (path ∷ s.contents_set) (base_of lib path) entries start d
          w.distinct w.sound_keys h4 in
      let last : ContentsManifest = record {
        summary = record manifest.summary {
          encrypted_files = d.encrypted_files;
          plain_files = d.plain_files;
        };
        plaintext = manifest.plaintext;
      } in
      let room : length manifest.plaintext ≤ s.remaining_plaintext = not_above fits in
      let short : length entries ≤ max_archive_entries - s.total_declarations = not_above few in
      subst (WellDeclared files) (done_eq _ s' h5) (record {
        distinct = adds.distinct;
        sound_keys = adds.sound_keys;
        counted = omega (arith, adds.counted, w.counted);
        within_limit = omega (arith, short, w.within_limit);
        plaintext_exact =
            omega (arith, room, w.plaintext_exact, sum_plaintext-append s.manifests (last ∷ []));
        encrypted_exact = omega (
          arith,
          adds.encrypted,
          w.encrypted_exact,
          sum_encrypted-append s.manifests (last ∷ []),
        );
      })
    where
      not_above : {m n : ℕ} → not (ltb m n) ≡ true → n ≤ m
      not_above e = ground (arith, e)

  declare_manifests-keeps :
      (key : Bytes) (contents : List (Bytes × ZipFile)) (s s' : Declared)
      → WellDeclared files s
      → declare_manifests lib files key contents s ≡ done s'
      → WellDeclared files s'
  unfolding declare_manifests
  declare_manifests-keeps key [] s s' w h = subst (WellDeclared files) (done_eq s s' h) w
  declare_manifests-keeps key ((path, file) ∷ contents) s s' w h =
      let (found, _, h1) = bind-done (decrypt_contents_manifest lib file path key) _ s' h in
      let (mid, h2, h3) =
        bind-done (declare_manifest lib files path found s)
          (declare_manifests lib files key contents) s' h1 in
      declare_manifests-keeps key contents mid s'
        (declare_manifest-WellDeclared path found s mid w h2) h3

-- When the contents manifests are accepted, no path is declared twice, each key has 32 bytes and
-- belongs to a path that is no directory, the number of declarations is the total, which is within
-- the limit of entries, the plaintexts of the manifests are within their limit, with what remains of
-- it exact, and the encrypted files that the manifests report are the declarations with a key.
pub declare_manifests-WellDeclared :
    (lib : Library) (files : List (Bytes × ZipFile)) (key : Bytes)
    (contents : List (Bytes × ZipFile)) (s : Declared)
    → declare_manifests lib files key contents nothing_declared ≡ done s
    → WellDeclared files s
declare_manifests-WellDeclared lib files key contents s h =
    declare_manifests-keeps lib files key contents nothing_declared s
      (record {
        distinct = tt;
        sound_keys = tt;
        counted = refl;
        within_limit = omega arith;
        plaintext_exact = refl;
        encrypted_exact = refl;
      })
      h
