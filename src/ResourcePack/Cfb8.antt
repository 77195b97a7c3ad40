-- ===== src/ResourcePack/Cfb8.antt =====
-- internal/resourcepack/decrypt.go: AES in CFB8 mode. The block cipher of crypto/aes is a parameter:
-- `new_cipher key` is what `Encrypt` does under the key, or `none` where aes.NewCipher refuses it.
pub mod Laws
use Prim.Native.Nat.{bit_xor}
use bedrock_debug_proxy.Base.{
  ℕ, List, [], ◌∷◌, ◌++◌, Option, none, some, Bool, true, false, Bytes, length, take, drop, ◌==◌,
  ltb, if◌then◌else◌, not,
}

abbrev pub block_size : ℕ
block_size = 16

abbrev pub Block : Type 0
Block = Bytes → Bytes

abbrev pub first_byte : Bytes → ℕ
first_byte [] = 0
first_byte (b ∷ bytes) = b

-- `scratch` is written before it is read, so that the state is the register.
unfoldable pub shift : Bytes → ℕ → Bytes
shift register c = drop 1 register ++ c ∷ []

-- The loop of `XORKeyStream`: the plaintext, and the register after it.
unfoldable pub xor_loop : Block → Bytes → Bytes → Bytes × Bytes
unfolding shift
xor_loop encrypt register [] = ([], register)
xor_loop encrypt register (c ∷ source) =
    let (plain, register') = xor_loop encrypt (shift register c) source in
    (bit_xor c (first_byte (encrypt register)) ∷ plain, register')

-- With the length of the destination; `none` is the panic.
unfoldable pub xor_key_stream : Block → (destination : ℕ) → Bytes → Bytes → Option (Bytes × Bytes)
unfolding xor_loop
xor_key_stream encrypt destination register source =
    if ltb destination (length source) then none else some (xor_loop encrypt register source)

-- A cipher with its register.
unfoldable pub new_cfb8_decrypter :
    (Bytes → Option Block) → (key iv : Bytes) → Option (Block × Bytes)
new_cfb8_decrypter new_cipher key iv =
    if not (length iv == block_size)
    then none
    else elim (new_cipher key) [ none ↦ none | some block ↦ some (block, iv) ]

unfoldable pub decrypt_bytes : (Bytes → Option Block) → (key ciphertext : Bytes) → Option Bytes
unfolding new_cfb8_decrypter xor_key_stream
decrypt_bytes new_cipher key ciphertext =
    elim (new_cfb8_decrypter new_cipher key (take block_size key)) [
      | none ↦ none
      | some (block, register) ↦
          elim (xor_key_stream block (length ciphertext) register ciphertext) [
            | none ↦ none
            | some (plain, register') ↦ some plain
          ]
    ]
