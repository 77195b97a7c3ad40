-- ===== src/ResourcePack/Archive/Results.antt =====
-- internal/resourcepack/decrypt.go: what a derived archive is.
use bedrock_debug_proxy.Base.{
  ◌+◌, ◌≤◌, ◌≡◌, refl, sym, ap, ◌∙◌, subst, List, [], ◌∷◌, some, not, Bytes, length, ◌==◌, ltb,
  arith, ◌-◌, ◌||◌, bytes_eq,
}
use bedrock_debug_proxy.ResourcePack.Entry.{ZipFile, max_decrypted_payload_size}
use bedrock_debug_proxy.ResourcePack.Manifest.{
  Library, ContentsEntry, ContentsManifest, decrypt_contents_manifest, max_archive_entries,
}
use bedrock_debug_proxy.ResourcePack.Paths.{is_empty}
use bedrock_debug_proxy.ResourcePack.Index.{index_files, manifest_paths}
use bedrock_debug_proxy.ResourcePack.Declare.{
  Declared, nothing_declared, declare_entries, declare_manifest, declare_manifests, key_bytes,
  base_of,
}
use bedrock_debug_proxy.ResourcePack.Declare.Laws.{WellDeclared, declare_manifests-WellDeclared}
use bedrock_debug_proxy.ResourcePack.Emit.{Sink, Report, Emitting, emit_all}
use bedrock_debug_proxy.ResourcePack.Emit.Content.{Derived}
use bedrock_debug_proxy.ResourcePack.Emit.Derivation.{Balanced, sum_bytes, emit_all-derives}
use bedrock_debug_proxy.ResourcePack.Outcome.{
  done, bind-done, guard-done, done_eq, key_size, too_many_entries, set_comment_failed,
  close_failed, plaintext_limit, declaration_limit, other_content_id,
}
use bedrock_debug_proxy.ResourcePack.Archive.{
  Decrypted, choose_root, contents_of, write_archive, start_emitting, plan_of, decrypt_archive,
}

-- The stages of a decryption that is accepted.
record Stages (lib : Library) (sink : Sink) (entries : List (Bytes × ZipFile)) (key : Bytes)
    (result : Decrypted) : Type 0 where
  files : List (Bytes × ZipFile)
  root_path : Bytes
  contents : List (Bytes × ZipFile)
  declared : Declared
  emitted : Emitting
  indexes : index_files lib.text entries [] ≡ done files
  roots : choose_root (manifest_paths lib.text files) ≡ done root_path
  finds : contents_of lib sink (base_of lib root_path) files ≡ done contents
  declares : declare_manifests lib files key contents nothing_declared ≡ done declared
  emits :
      emit_all lib sink
        (plan_of lib root_path declared)
        files
        (start_emitting (length entries) declared)
      ≡ done emitted
  reports : result.report ≡ emitted.report
  writes : result.written ≡ emitted.written

decrypt_archive-Stages :
    (lib : Library) (sink : Sink) (entries : List (Bytes × ZipFile)) (key : Bytes)
    (result : Decrypted)
    → decrypt_archive lib sink (some entries) key ≡ done result
    → Stages lib sink entries key result
unfolding decrypt_archive write_archive
decrypt_archive-Stages lib sink entries key result h =
    let (_, h1) = guard-done (length key == key_bytes) key_size _ result h in
    let (_, h2) =
      guard-done (not (ltb max_archive_entries (length entries)))
        (too_many_entries (length entries)) _ result h1 in
    let (files, indexes, h3) = bind-done (index_files lib.text entries []) _ result h2 in
    let (root_path, roots, h4) =
      bind-done (choose_root (manifest_paths lib.text files)) _ result h3 in
    let (contents, finds, h5) =
      bind-done (contents_of lib sink (base_of lib root_path) files) _ result h4 in
    let (declared, declares, h6) =
      bind-done (declare_manifests lib files key contents nothing_declared) _ result h5 in
    let (_, h7) = guard-done sink.sets_comment set_comment_failed _ result h6 in
    let (emitted, emits, h8) =
      bind-done
        (emit_all lib sink (plan_of lib root_path declared) files
          (start_emitting (length entries) declared))
        _ result h7 in
    let (_, h9) = guard-done sink.closes close_failed _ result h8 in
    let same = done_eq _ result h9 in
    record {
      files = files;
      root_path = root_path;
      contents = contents;
      declared = declared;
      emitted = emitted;
      indexes = indexes;
      roots = roots;
      finds = finds;
      declares = declares;
      emits = emits;
      reports = sym (ap (λ (x : Decrypted). x.report) same);
      writes = sym (ap (λ (x : Decrypted). x.written) same);
    }

-- The names of the contents manifests, the last one first.
abbrev pub names_onto : List (Bytes × ZipFile) → List Bytes → List Bytes
names_onto [] names = names
names_onto ((path, file) ∷ contents) names = names_onto contents (path ∷ names)

declare_manifest-contents_set :
    (lib : Library) (files : List (Bytes × ZipFile)) (path : Bytes)
    (found : ContentsManifest × Bytes × List ContentsEntry) (s s' : Declared)
    → declare_manifest lib files path found s ≡ done s'
    → s'.contents_set ≡ path ∷ s.contents_set
unfolding declare_manifest
declare_manifest-contents_set lib files path (manifest, content_id, entries) s s' h =
    let (_, h1) =
      guard-done (not (ltb s.remaining_plaintext (length manifest.plaintext))) plaintext_limit _ s'
        h in
    let (_, h2) =
      guard-done (not (ltb (max_archive_entries - s.total_declarations) (length entries)))
        declaration_limit _ s' h1 in
    let (_, h3) =
      guard-done (is_empty s.content_id || bytes_eq s.content_id content_id)
        (other_content_id content_id) _ s' h2 in
    let (d, _, h4) =
      bind-done
        (declare_entries lib files (path ∷ s.contents_set) (base_of lib path) entries
          (record { declarations = s.declarations; encrypted_files = 0; plain_files = 0 }))
        _ s' h3 in
    sym (ap (λ (x : Declared). x.contents_set) (done_eq _ s' h4))

declare_manifests-contents_set :
    (lib : Library) (files : List (Bytes × ZipFile)) (key : Bytes)
    (contents : List (Bytes × ZipFile)) (s s' : Declared)
    → declare_manifests lib files key contents s ≡ done s'
    → s'.contents_set ≡ names_onto contents s.contents_set
unfolding declare_manifests
declare_manifests-contents_set lib files key [] s s' h =
    sym (ap (λ (x : Declared). x.contents_set) (done_eq s s' h))
declare_manifests-contents_set lib files key ((path, file) ∷ contents) s s' h =
    let (found, _, h1) = bind-done (decrypt_contents_manifest lib file path key) _ s' h in
    let (mid, h2, h3) =
      bind-done (declare_manifest lib files path found s) (declare_manifests lib files key contents)
        s' h1 in
    declare_manifests-contents_set lib files key contents mid s' h3
    ∙ ap (names_onto contents) (declare_manifest-contents_set lib files path found s mid h2)

-- What a derived archive is: the index of the entries, the manifest of the pack that is chosen among
-- its manifests, the contents manifests that are found below its folder, what they declare under the
-- key of the pack, and the entries that follow from these. No other entry than a contents manifest
-- is left out.
pub record IsDerivation (lib : Library) (sink : Sink) (entries : List (Bytes × ZipFile))
    (key : Bytes) (result : Decrypted) : Type 0 where
  pub files : List (Bytes × ZipFile)
  pub root_path : Bytes
  pub contents : List (Bytes × ZipFile)
  pub declared : Declared
  pub indexes : index_files lib.text entries [] ≡ done files
  pub roots : choose_root (manifest_paths lib.text files) ≡ done root_path
  pub finds : contents_of lib sink (base_of lib root_path) files ≡ done contents
  pub declares : declare_manifests lib files key contents nothing_declared ≡ done declared
  pub well_declared : WellDeclared files declared
  pub left_out : declared.contents_set ≡ names_onto contents []
  pub derived : Derived lib (plan_of lib root_path declared) files result.written

pub decrypt_archive-Derived :
    (lib : Library) (sink : Sink) (entries : List (Bytes × ZipFile)) (key : Bytes)
    (result : Decrypted)
    → decrypt_archive lib sink (some entries) key ≡ done result
    → IsDerivation lib sink entries key result
decrypt_archive-Derived lib sink entries key result h =
    let st = decrypt_archive-Stages lib sink entries key result h in
    let plan = plan_of lib st.root_path st.declared in
    let ((more, same, derived), _) =
      emit_all-derives lib sink plan st.files (start_emitting (length entries) st.declared)
        st.emitted st.emits in
    record {
      files = st.files;
      root_path = st.root_path;
      contents = st.contents;
      declared = st.declared;
      indexes = st.indexes;
      roots = st.roots;
      finds = st.finds;
      declares = st.declares;
      well_declared =
          declare_manifests-WellDeclared lib st.files key st.contents st.declared st.declares;
      left_out =
          declare_manifests-contents_set lib st.files key st.contents nothing_declared st.declared
            st.declares;
      derived = subst (Derived lib plan st.files) (sym (st.writes ∙ same)) derived;
    }

-- The bytes of a derived archive are those that the report counts, and at most the limit of the
-- decrypted payload, 1 GiB; and each entry that is written is counted as a directory, as decrypted
-- or as copied.
pub decrypt_archive-bounded :
    (lib : Library) (sink : Sink) (entries : List (Bytes × ZipFile)) (key : Bytes)
    (result : Decrypted)
    → decrypt_archive lib sink (some entries) key ≡ done result
    → let report = result.report in
      (sum_bytes result.written ≡ report.decrypted_payload_bytes)
      × (report.decrypted_payload_bytes ≤ max_decrypted_payload_size)
      × (length result.written
          ≡ report.directories + (report.decrypted_files + report.copied_files))
decrypt_archive-bounded lib sink entries key result h =
    let st = decrypt_archive-Stages lib sink entries key result h in
    let (_, keeps) =
      emit_all-derives lib sink (plan_of lib st.root_path st.declared) st.files
        (start_emitting (length entries) st.declared) st.emitted st.emits in
    let b : Balanced st.emitted =
      keeps (record { budget = refl; payload = refl; entries = refl; kinds = refl }) in
    let written = st.writes in
    let reports = st.reports in
    (
      ap sum_bytes written
          ∙ b.payload
          ∙ sym (ap (λ (r : Report). r.decrypted_payload_bytes) reports),
      omega (arith, b.budget, ap (λ (r : Report). r.decrypted_payload_bytes) reports),
      ap length written
          ∙ b.entries
          ∙ b.kinds
          ∙ sym (ap (λ (r : Report). r.directories + (r.decrypted_files + r.copied_files)) reports),
    )
