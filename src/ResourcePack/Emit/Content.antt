-- ===== src/ResourcePack/Emit/Content.antt =====
-- internal/resourcepack/decrypt.go: what each entry of the derived archive holds.
use bedrock_debug_proxy.Base.{
  ℕ, ◌≡◌, refl, sym, ap, ◌∙◌, ◌⊎◌, inl, inr, subst, List, [], ◌∷◌, some, Bool, true, false, not,
  Bytes, length, take, contains, ltb, leb, ◌<◌, ◌&&◌, arith, Bool-cases,
}
use bedrock_debug_proxy.ResourcePack.Cfb8.{
  Block, block_size, xor_loop, xor_key_stream, new_cfb8_decrypter, decrypt_bytes,
}
use bedrock_debug_proxy.ResourcePack.Paths.{is_empty, is_text_like_resource_path}
use bedrock_debug_proxy.ResourcePack.Entry.{
  ZipFile, max_contents_manifest_size, read_limited_entry, looks_like_plaintext,
}
use bedrock_debug_proxy.ResourcePack.Entry.Laws.{read_limited_entry-whole}
use bedrock_debug_proxy.ResourcePack.Manifest.{Library}
use bedrock_debug_proxy.ResourcePack.Outcome.{
  done, from_option, bind-done, guard-done, done_eq, from_option-done, bad_cipher, open_entry,
}
use bedrock_debug_proxy.ResourcePack.Emit.{
  Plan, Input, is_probed, choose_text, probe_text, open_stream, choose_input,
}
use bedrock_debug_proxy.ResourcePack.Emit.Keys.{DeclaredKey}

module _ (lib : Library) where
  -- A file that is decrypted: no text by its name, or too large to be tried, or its source does not
  -- look like plaintext, or its decryption does.
  abbrev pub IsDecrypted : Bytes → (size : ℕ) → (source plain : Bytes) → Type 0
  IsDecrypted name size source plain =
      (is_text_like_resource_path lib.text name ≡ false)
      ⊎ ((max_contents_manifest_size < size)
          ⊎ ((looks_like_plaintext lib.text source ≡ false)
              ⊎ (looks_like_plaintext lib.text plain ≡ true)))

  -- The bytes that a file's entry holds: those of the source where no key is declared; else its
  -- decryption, unless the source is a small text and its decryption is not.
  abbrev pub FileContent : Bytes → (size : ℕ) → (key source bytes : Bytes) → Type 0
  FileContent name size key source bytes =
      ((is_empty key ≡ true) × (bytes ≡ source))
      ⊎ ((is_empty key ≡ false)
          × (((decrypt_bytes lib.new_cipher key source ≡ some bytes)
                × IsDecrypted name size source bytes)
              ⊎ ((bytes ≡ source)
                  × (is_text_like_resource_path lib.text name ≡ true)
                  × (looks_like_plaintext lib.text source ≡ true)
                  × (plain : Bytes) × (decrypt_bytes lib.new_cipher key source ≡ some plain)
                  × (looks_like_plaintext lib.text plain ≡ false))))

  -- Of an entry of the derived archive and its file.
  abbrev pub Content : Plan → Bytes → ZipFile → Bytes → Type 0
  Content plan name file bytes =
      ((file.is_dir ≡ true) × (bytes ≡ []))
      ⊎ ((file.is_dir ≡ false)
          × (file.is_regular ≡ true)
          × (length bytes ≡ file.size)
          × (key : Bytes) × DeclaredKey plan name key
          × FileContent name file.size key file.contents.bytes bytes)

  -- The entries of a derived archive: one for each entry of the source, in their order, less the
  -- contents manifests. No source entry is a symbolic link.
  pub data Derived (plan : Plan) : List (Bytes × ZipFile) → List (Bytes × Bytes) → Type 0 where
    derived_end : Derived plan [] []
    derived_skip :
        {files : List (Bytes × ZipFile)} {written : List (Bytes × Bytes)} (name : Bytes)
        (file : ZipFile)
        → contains name plan.contents_set ≡ true
        → Derived plan files written
        → Derived plan ((name, file) ∷ files) written
    derived_entry :
        {files : List (Bytes × ZipFile)} {written : List (Bytes × Bytes)} (name : Bytes)
        (file : ZipFile) (bytes : Bytes)
        → contains name plan.contents_set ≡ false
        → file.is_symlink ≡ false
        → Content plan name file bytes
        → Derived plan files written
        → Derived plan ((name, file) ∷ files) ((name, bytes) ∷ written)

  decrypt_bytes-stream :
      (key source : Bytes) (block : Block) (register : Bytes)
      → new_cfb8_decrypter lib.new_cipher key (take block_size key) ≡ some (block, register)
      → decrypt_bytes lib.new_cipher key source ≡ some (xor_loop block register source).0
  unfolding decrypt_bytes xor_key_stream
  decrypt_bytes-stream key source block register e =
      rw (e, decrypt_bytes, xor_key_stream, ltb_self (length source)) refl
    where
      ltb_self : (n : ℕ) → ltb n n ≡ false
      ltb_self n = ground arith

  choose_text-content :
      (name : Bytes) (size : ℕ) (key source plain : Bytes)
      → is_empty key ≡ false
      → is_text_like_resource_path lib.text name ≡ true
      → decrypt_bytes lib.new_cipher key source ≡ some plain
      → FileContent name size key source (choose_text lib source plain).source.bytes
  unfolding choose_text
  choose_text-content name size key source plain keyed text e =
      by_probe (looks_like_plaintext lib.text source) (looks_like_plaintext lib.text plain) refl
        refl
    where
      by_probe :
          (a b : Bool)
          → looks_like_plaintext lib.text source ≡ a
          → looks_like_plaintext lib.text plain ≡ b
          → FileContent name size key source (choose_text lib source plain).source.bytes
      by_probe true false ha hb = rw (ha, hb) (inr (keyed, inr (refl, text, refl, plain, e, hb)))
      by_probe true true ha hb = rw (ha, hb) (inr (keyed, inl (e, inr (inr (inr hb)))))
      by_probe false b ha hb = rw ha (inr (keyed, inl (e, inr (inr (inl refl)))))

  probe_text-content :
      (name : Bytes) (file : ZipFile) (key : Bytes) (input : Input)
      → is_empty key ≡ false
      → is_text_like_resource_path lib.text name ≡ true
      → probe_text lib file key ≡ done input
      → FileContent name file.size key file.contents.bytes input.source.bytes
  unfolding probe_text
  probe_text-content name file key input keyed text k =
      let (source, e, k1) = bind-done (read_limited_entry file) _ input k in
      let (plain, e1, k2) =
        bind-done (from_option (decrypt_bytes lib.new_cipher key source) bad_cipher) _ input k1 in
      let content =
        choose_text-content name file.size key source plain keyed text
          (from_option-done (decrypt_bytes lib.new_cipher key source) bad_cipher plain e1) in
      subst (λ (x : Bytes). FileContent name file.size key x input.source.bytes)
        (read_limited_entry-whole file source e)
        (subst (λ (x : Input). FileContent name file.size key source x.source.bytes)
          (done_eq (choose_text lib source plain) input k2) content)

  open_stream-content :
      (name : Bytes) (file : ZipFile) (key : Bytes) (input : Input) (keyless : Bool)
      → is_empty key ≡ keyless
      → (is_empty key ≡ false
          → (is_text_like_resource_path lib.text name ≡ false)
            ⊎ (max_contents_manifest_size < file.size))
      → open_stream lib file key ≡ done input
      → FileContent name file.size key file.contents.bytes input.source.bytes
  unfolding open_stream
  open_stream-content name file key input true e large k =
      let (_, k1) = guard-done file.opens open_entry _ input k in
      let same = done_eq _ input (rw e at k1) in
      inl (e, sym (ap (λ (x : Input). x.source.bytes) same))
  open_stream-content name file key input false e large k =
      let (_, k1) = guard-done file.opens open_entry _ input k in
      let (cipher, e1, k2) =
        bind-done
          (from_option (new_cfb8_decrypter lib.new_cipher key (take block_size key)) bad_cipher) _
          input (rw e at k1) in
      let made =
        from_option-done (new_cfb8_decrypter lib.new_cipher key (take block_size key)) bad_cipher
          cipher e1 in
      inr (
        e,
        inl (
          decrypt_bytes-stream key file.contents.bytes cipher.0 cipher.1 made
              ∙ ap (λ (x : Input). some x.source.bytes) (done_eq _ input k2),
          as_decrypted (large e),
        ),
      )
    where
      as_decrypted :
          (is_text_like_resource_path lib.text name ≡ false)
            ⊎ (max_contents_manifest_size < file.size)
          → IsDecrypted name file.size file.contents.bytes input.source.bytes
      as_decrypted (inl binary) = inl binary
      as_decrypted (inr above) = inr (inl above)

  pub choose_input-content :
      (name : Bytes) (file : ZipFile) (key : Bytes) (input : Input)
      → choose_input lib name file key ≡ done input
      → FileContent name file.size key file.contents.bytes input.source.bytes
  unfolding choose_input
  choose_input-content name file key input h = elim (Bool-cases (is_probed lib name file key)) [
    | inl probed ↦
        let (keyed, text) =
          probed_facts (is_empty key) (is_text_like_resource_path lib.text name) _ probed in
        probe_text-content name file key input keyed text (rw probed at h)
    | inr other ↦
        open_stream-content name file key input (is_empty key) refl
          (λ keyed.
            not_probed (is_empty key) (is_text_like_resource_path lib.text name)
              (leb file.size max_contents_manifest_size) refl keyed other)
          (rw other at h)
  ]
    where
      probed_facts : (a b c : Bool) → (not a && (b && c)) ≡ true → (a ≡ false) × (b ≡ true)
      probed_facts false true c e = (refl, refl)
      probed_facts false false c e = absurd (cc)
      probed_facts true b c e = absurd (cc)

      not_probed :
          (a b c : Bool)
          → leb file.size max_contents_manifest_size ≡ c
          → a ≡ false
          → (not a && (b && c)) ≡ false
          → (b ≡ false) ⊎ (max_contents_manifest_size < file.size)
      not_probed true b c small keyed e = absurd (cc)
      not_probed false false c small keyed e = inl refl
      not_probed false true true small keyed e = absurd (cc)
      not_probed false true false small keyed e = inr (ground (arith, small))
