-- ===== src/ResourcePack/Emit/Derivation.antt =====
-- internal/resourcepack/decrypt.go: the loop that writes the derived archive, against its content.
use bedrock_debug_proxy.Base.{
  ℕ, ◌+◌, ◌≡◌, refl, sym, ap, ◌∙◌, inl, inr, subst, List, [], ◌∷◌, ◌++◌, Bool, true, false, not,
  Bytes, length, length-append, contains, ◌==◌, ltb, ◌||◌, if◌then◌else◌, arith, append_assoc,
  append-nil, Bool-cases,
}
use bedrock_debug_proxy.ResourcePack.Entry.{ZipFile, max_decrypted_payload_size, copy_with_budget}
use bedrock_debug_proxy.ResourcePack.Entry.Laws.{copy_with_budget-whole}
use bedrock_debug_proxy.ResourcePack.Manifest.{Library}
use bedrock_debug_proxy.ResourcePack.Outcome.{
  done, bind-done, guard-done, done_eq, symbolic_link, irregular, create_entry, oversized,
  wrong_size, copy_entry,
}
use bedrock_debug_proxy.ResourcePack.Emit.{
  Sink, Emitting, Plan, entry_key, choose_input, emit_directory, emit_written, emit_file,
  emit_entry, emit_all,
}
use bedrock_debug_proxy.ResourcePack.Emit.Keys.{entry_key-DeclaredKey}
use bedrock_debug_proxy.ResourcePack.Emit.Content.{
  FileContent, Content, Derived, derived_end, derived_skip, derived_entry, choose_input-content,
}

abbrev pub sum_bytes : List (Bytes × Bytes) → ℕ
sum_bytes [] = 0
sum_bytes ((name, bytes) ∷ written) = length bytes + sum_bytes written

sum_bytes-append :
    (xs ys : List (Bytes × Bytes)) → sum_bytes (xs ++ ys) ≡ sum_bytes xs + sum_bytes ys
sum_bytes-append [] ys = omega arith
sum_bytes-append ((name, bytes) ∷ xs) ys = omega (arith, sum_bytes-append xs ys)

-- The report agrees with what is written, and the budget with the payload.
pub record Balanced (s : Emitting) : Type 0 where
  pub budget : s.report.decrypted_payload_bytes + s.remaining ≡ max_decrypted_payload_size
  pub payload : sum_bytes s.written ≡ s.report.decrypted_payload_bytes
  pub entries : length s.written ≡ s.report.output_entries
  pub kinds :
      s.report.output_entries
      ≡ s.report.directories + (s.report.decrypted_files + s.report.copied_files)

emit_directory-Balanced :
    (lib : Library) (name : Bytes) (s : Emitting)
    → Balanced s
    → Balanced (emit_directory lib name s)
emit_directory-Balanced lib name s b = record {
  budget = b.budget;
  payload = omega (arith, b.payload, sum_bytes-append s.written ((name, []) ∷ []));
  entries = omega (arith, b.entries, length-append s.written ((name, []) ∷ []));
  kinds = omega (arith, b.kinds);
}

emit_written-Balanced :
    (lib : Library) (name : Bytes) (decrypted : Bool) (bytes : Bytes) (remaining : ℕ) (s : Emitting)
    → length bytes + remaining ≡ s.remaining
    → Balanced s
    → Balanced (emit_written lib name decrypted bytes remaining s)
emit_written-Balanced lib name decrypted bytes remaining s e b = record {
  budget = omega (arith, b.budget, e);
  payload = omega (arith, b.payload, sum_bytes-append s.written ((name, bytes) ∷ []));
  entries = omega (arith, b.entries, length-append s.written ((name, bytes) ∷ []));
  kinds = one_kind decrypted;
}
  where
    one_kind :
        (d : Bool)
        → s.report.output_entries + 1
          ≡ s.report.directories
            + (s.report.decrypted_files
                + (if d then 1 else 0)
                + (s.report.copied_files + (if d then 0 else 1)))
    one_kind true = omega (arith, b.kinds)
    one_kind false = omega (arith, b.kinds)

-- What one entry adds.
record Emits (s s' : Emitting) (name : Bytes) (P : Bytes → Type 0) : Type 0 where
  bytes : Bytes
  appended : s'.written ≡ s.written ++ (name, bytes) ∷ []
  content : P bytes
  balanced : Balanced s → Balanced s'

module _ (lib : Library) (sink : Sink) (plan : Plan) where
  emit_file-Emits :
      (name : Bytes) (file : ZipFile) (s s' : Emitting)
      → file.is_dir ≡ false
      → file.is_regular ≡ true
      → emit_file lib sink plan name file s ≡ done s'
      → Emits s s' name (Content lib plan name file)
  unfolding emit_file
  emit_file-Emits name file s s' file_only regular h =
      let key = entry_key plan name in
      let (_, h1) =
        guard-done (not (ltb max_decrypted_payload_size file.size)) (oversized name) _ s' h in
      let (input, e, h2) = bind-done (choose_input lib name file key) _ s' h1 in
      let (copied, e1, h3) =
        bind-done (copy_with_budget (sink.writes name) input.source s.remaining) _ s' h2 in
      let (_, h4) = guard-done input.closes copy_entry _ s' h3 in
      let (size, h5) =
        guard-done (length copied.0 == file.size) (wrong_size name (length copied.0)) _ s' h4 in
      let (whole, rest) =
        copy_with_budget-whole (sink.writes name) input.source s.remaining copied.0 copied.1 e1 in
      let content =
        subst (FileContent lib name file.size key file.contents.bytes) (sym whole)
          (choose_input-content lib name file key input e) in
      subst (λ x. Emits s x name (Content lib plan name file)) (done_eq _ s' h5)
        (record {
          bytes = copied.0;
          appended = refl;
          content =
              inr (
                file_only,
                regular,
                equal_sizes size,
                key,
                entry_key-DeclaredKey plan name,
                content,
              );
          balanced = emit_written-Balanced lib name input.decrypted copied.0 copied.1 s rest;
        })
    where
      equal_sizes : {m n : ℕ} → (m == n) ≡ true → m ≡ n
      equal_sizes e = ground (arith, e)

  emit_entry-Emits :
      (name : Bytes) (file : ZipFile) (s s' : Emitting)
      → emit_entry lib sink plan name file s ≡ done s'
      → (file.is_symlink ≡ false) × Emits s s' name (Content lib plan name file)
  unfolding emit_entry
  emit_entry-Emits name file s s' h =
      let (no_link, h1) = guard-done (not file.is_symlink) (symbolic_link name) _ s' h in
      let (plain, h2) = guard-done (file.is_dir || file.is_regular) (irregular name) _ s' h1 in
      let (_, h3) = guard-done (sink.creates name) (create_entry name) _ s' h2 in
      (not_link file.is_symlink no_link, by_kind (file.is_dir) refl plain h3)
    where
      not_link : (b : Bool) → not b ≡ true → b ≡ false
      not_link true e = absurd (cc)
      not_link false e = refl

      by_kind :
          (directory : Bool)
          → file.is_dir ≡ directory
          → (directory || file.is_regular) ≡ true
          → (if directory
              then done (emit_directory lib name s)
              else emit_file lib sink plan name file s)
            ≡ done s'
          → Emits s s' name (Content lib plan name file)
      by_kind true e plain k =
          subst (λ x. Emits s x name (Content lib plan name file))
            (done_eq (emit_directory lib name s) s' k)
            (record {
              bytes = [];
              appended = refl;
              content = inl (e, refl);
              balanced = emit_directory-Balanced lib name s;
            })
      by_kind false e plain k = emit_file-Emits name file s s' e plain k

  pub emit_all-derives :
      (files : List (Bytes × ZipFile)) (s s' : Emitting)
      → emit_all lib sink plan files s ≡ done s'
      → ((more : List (Bytes × Bytes)) × (s'.written ≡ s.written ++ more)
          × Derived lib plan files more)
        × (Balanced s → Balanced s')
  unfolding emit_all
  emit_all-derives [] s s' h =
      let same = done_eq s s' h in
      (
        ([], sym (ap (λ (x : Emitting). x.written) same) ∙ sym (append-nil s.written), derived_end),
        λ b. subst Balanced same b,
      )
  emit_all-derives ((name, file) ∷ files) s s' h =
      elim (Bool-cases (contains name plan.contents_set)) [
        | inl skip ↦
            let ((more, same, derived), keeps) = emit_all-derives files s s' (rw skip at h) in
            ((more, same, derived_skip name file skip derived), keeps)
        | inr kept ↦
            let (mid, h1, h2) =
              bind-done (emit_entry lib sink plan name file s) (emit_all lib sink plan files) s'
                (rw kept at h) in
            let (no_link, one) = emit_entry-Emits name file s mid h1 in
            let ((more, same, derived), keeps) = emit_all-derives files mid s' h2 in
            (
              (
                (name, one.bytes) ∷ more,
                same
                    ∙ ap (λ (x : List (Bytes × Bytes)). x ++ more) one.appended
                    ∙ append_assoc s.written ((name, one.bytes) ∷ []) more,
                derived_entry name file one.bytes kept no_link one.content derived,
              ),
              λ b. keeps (one.balanced b),
            )
      ]
