-- ===== src/ResourcePack/Cfb8/Laws.antt =====
-- internal/resourcepack/decrypt.go: CFB8 against its definition as a mode of encryption.
use Prim.Native.Nat.{bit_xor}
use bedrock_debug_proxy.Base.{
  ℕ, suc, zero, ◌≡◌, ◌≤◌, refl, sym, ap, ◌∙◌, [], ◌∷◌, ◌++◌, Option, some, Bytes, length, take,
  drop, length-append, append_assoc, append-nil, arith, bit_xor-bit_xor, ltb, false, true, none,
  some_eq, ◌==◌, Bool-cases, inl, inr,
}
use bedrock_debug_proxy.ResourcePack.Cfb8.{
  Block, block_size, first_byte, shift, xor_loop, xor_key_stream, new_cfb8_decrypter, decrypt_bytes,
}

-- The encryption of CFB8 as the standard states it, by the history of the ciphertext and without a
-- register: the block that is encrypted is the last bytes of the first block and the ciphertext so
-- far, as many as the first block holds, and the first byte of its encryption is the key of the next
-- byte.
abbrev pub window : (iv history : Bytes) → Bytes
window iv history = drop (length history) (iv ++ history)

abbrev pub key_byte : Bytes → ℕ
key_byte [] = 0
key_byte (k ∷ _) = k

abbrev pub encrypt_after : Block → (iv history plain : Bytes) → Bytes
encrypt_after encrypt iv history [] = []
encrypt_after encrypt iv history (p ∷ plain) =
    let c = bit_xor p (key_byte (encrypt (window iv history))) in
    c ∷ encrypt_after encrypt iv (history ++ c ∷ []) plain

abbrev pub encrypt_cfb8 : Block → (iv plain : Bytes) → Bytes
encrypt_cfb8 encrypt iv plain = encrypt_after encrypt iv [] plain

drop-append : (n : ℕ) (xs ys : Bytes) → n ≤ length xs → drop n (xs ++ ys) ≡ drop n xs ++ ys
drop-append zero xs ys h = refl
drop-append (suc n) [] ys h = absurd (omega (arith, h))
drop-append (suc n) (x ∷ xs) ys h = drop-append n xs ys (omega (arith, h))

drop-drop : (n : ℕ) (xs : Bytes) → drop 1 (drop n xs) ≡ drop (suc n) xs
drop-drop zero xs = refl
drop-drop (suc n) [] = refl
drop-drop (suc n) (x ∷ xs) = drop-drop n xs

shift-window :
    (iv history : Bytes) (c : ℕ)
    → 1 ≤ length iv
    → shift (window iv history) c ≡ window iv (history ++ c ∷ [])
unfolding shift
shift-window iv history c h =
    let n = length history in
    ap (λ (r : Bytes). r ++ c ∷ []) (drop-drop n (iv ++ history))
    ∙ sym
        (drop-append (suc n) (iv ++ history) (c ∷ []) (omega (arith, h, length-append iv history)))
    ∙ ap (drop (suc n)) (append_assoc iv history (c ∷ []))
    ∙ ap (λ (k : ℕ). drop k (iv ++ (history ++ c ∷ []))) counted
  where
    counted : suc (length history) ≡ length (history ++ c ∷ [])
    counted = omega (arith, length-append history (c ∷ []))

first_byte_is : (bytes : Bytes) → first_byte bytes ≡ key_byte bytes
first_byte_is [] = refl
first_byte_is (b ∷ bytes) = refl

xor_loop-encrypt_after :
    (encrypt : Block) (iv history plain : Bytes)
    → 1 ≤ length iv
    → (xor_loop encrypt (window iv history) (encrypt_after encrypt iv history plain)).0 ≡ plain
unfolding xor_loop
xor_loop-encrypt_after encrypt iv history [] h = refl
xor_loop-encrypt_after encrypt iv history (p ∷ plain) h =
    let register = window iv history in
    let k = key_byte (encrypt register) in
    let c = bit_xor p k in
    let rest = encrypt_after encrypt iv (history ++ c ∷ []) plain in
    ap (λ (x : ℕ). bit_xor c x ∷ (xor_loop encrypt (shift register c) rest).0)
      (first_byte_is (encrypt register))
    ∙ ap (λ (x : ℕ). x ∷ (xor_loop encrypt (shift register c) rest).0) (bit_xor-bit_xor p k)
    ∙ ap (λ (r : Bytes). p ∷ (xor_loop encrypt r rest).0) (shift-window iv history c h)
    ∙ ap (λ (x : Bytes). p ∷ x) (xor_loop-encrypt_after encrypt iv (history ++ c ∷ []) plain h)

xor_loop-encrypt_cfb8 :
    (encrypt : Block) (iv plain : Bytes)
    → 1 ≤ length iv
    → (xor_loop encrypt iv (encrypt_cfb8 encrypt iv plain)).0 ≡ plain
xor_loop-encrypt_cfb8 encrypt iv plain h =
    ap (λ (r : Bytes). (xor_loop encrypt r (encrypt_cfb8 encrypt iv plain)).0) (sym (append-nil iv))
    ∙ xor_loop-encrypt_after encrypt iv [] plain h

length-xor_loop :
    (encrypt : Block) (register source : Bytes)
    → length (xor_loop encrypt register source).0 ≡ length source
unfolding xor_loop
length-xor_loop encrypt register [] = refl
length-xor_loop encrypt register (c ∷ source) =
    ap suc (length-xor_loop encrypt (shift register c) source)

length-shift :
    (register : Bytes) (c : ℕ) → 1 ≤ length register → length (shift register c) ≡ length register
unfolding shift
length-shift [] c h = absurd (omega (arith, h))
length-shift (b ∷ register) c h = omega (arith, length-append register (c ∷ []))

-- The register is the last bytes of what it held and what came in.
xor_loop-register :
    (encrypt : Block) (register xs : Bytes)
    → 1 ≤ length register
    → (xor_loop encrypt register xs).1 ≡ drop (length xs) (register ++ xs)
unfolding xor_loop shift
xor_loop-register encrypt register [] h = sym (append-nil register)
xor_loop-register encrypt [] (x ∷ xs) h = absurd (omega (arith, h))
xor_loop-register encrypt (b ∷ register) (x ∷ xs) h =
    xor_loop-register encrypt (register ++ x ∷ []) xs
      (omega (arith, length-append register (x ∷ [])))
    ∙ ap (drop (length xs)) (append_assoc register (x ∷ []) xs)

drop-append-length : (n : ℕ) (xs ys : Bytes) → n ≡ length xs → drop n (xs ++ ys) ≡ ys
drop-append-length n [] ys h = let z : n ≡ 0 = h in rw z refl
drop-append-length zero (x ∷ xs) ys h = absurd (omega (arith, h))
drop-append-length (suc n) (x ∷ xs) ys h = drop-append-length n xs ys (omega (arith, h))

-- Under one block cipher, after as many bytes of ciphertext as the register holds, what follows is
-- decrypted to the same bytes whatever the register was before them: a register that is wrong, by a
-- wrong first block or by ciphertext that was damaged before, garbles no byte past these.
pub xor_loop-synchronises :
    (encrypt : Block) (register other xs ys : Bytes)
    → 1 ≤ length xs
    → length register ≡ length xs
    → length other ≡ length xs
    → (xor_loop encrypt (xor_loop encrypt register xs).1 ys).0
      ≡ (xor_loop encrypt (xor_loop encrypt other xs).1 ys).0
xor_loop-synchronises encrypt register other xs ys some_byte h k =
    let left : (xor_loop encrypt register xs).1 ≡ xs =
      xor_loop-register encrypt register xs (omega (arith, h, some_byte))
      ∙ drop-append-length (length xs) register xs (sym h) in
    let right : (xor_loop encrypt other xs).1 ≡ xs =
      xor_loop-register encrypt other xs (omega (arith, k, some_byte))
      ∙ drop-append-length (length xs) other xs (sym k) in
    ap (λ (r : Bytes). (xor_loop encrypt r ys).0) (left ∙ sym right)

ltb_self : (n : ℕ) → ltb n n ≡ false
ltb_self n = ground arith

-- With a key that the cipher takes and that has at least a block, `decryptBytes` undoes the
-- encryption of CFB8 whose first block is the first block of the key, for any bytes; and it never
-- panics.
pub decrypt_bytes-encrypt_cfb8 :
    (new_cipher : Bytes → Option Block) (key plain : Bytes) (block : Block)
    → new_cipher key ≡ some block
    → length (take block_size key) ≡ block_size
    → decrypt_bytes new_cipher key (encrypt_cfb8 block (take block_size key) plain) ≡ some plain
unfolding decrypt_bytes xor_key_stream
decrypt_bytes-encrypt_cfb8 new_cipher key plain block taken long =
    let iv = take block_size key in
    let cipher = encrypt_cfb8 block iv plain in
    ground (
      arith,
      taken,
      long,
      ltb_self (length cipher),
      xor_loop-encrypt_cfb8 block iv plain (omega (arith, long)),
    )

-- A decryption has as many bytes as its ciphertext.
pub length-decrypt_bytes :
    (new_cipher : Bytes → Option Block) (key ciphertext plain : Bytes)
    → decrypt_bytes new_cipher key ciphertext ≡ some plain
    → length plain ≡ length ciphertext
unfolding decrypt_bytes xor_key_stream new_cfb8_decrypter
length-decrypt_bytes new_cipher key ciphertext plain h =
    elim (Bool-cases (length (take block_size key) == block_size)) [
      | inl long ↦ by_cipher (new_cipher key) refl long
      | inr short ↦ absurd (cc (rw (short, decrypt_bytes, new_cfb8_decrypter) at h))
    ]
  where
    by_cipher :
        (c : Option Block)
        → new_cipher key ≡ c
        → (length (take block_size key) == block_size) ≡ true
        → length plain ≡ length ciphertext
    by_cipher none e long = absurd (cc (rw (long, e, decrypt_bytes, new_cfb8_decrypter) at h))
    by_cipher (some block) e long =
        let h' =
          rw
            (
              long,
              e,
              decrypt_bytes,
              new_cfb8_decrypter,
              xor_key_stream,
              ltb_self (length ciphertext),
            )
            at h in
        ap length (sym (some_eq (xor_loop block (take block_size key) ciphertext).0 plain h'))
        ∙ length-xor_loop block (take block_size key) ciphertext
