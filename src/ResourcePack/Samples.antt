-- ===== src/ResourcePack/Samples.antt =====
-- Tests of internal/resourcepack: a pack of a manifest, a contents manifest and one encrypted file.
mod Archives
use bedrock_debug_proxy.Base.{
  ℕ, ◌+◌, ◌≤◌, ◌≡◌, ◌≢◌, refl, sym, ap, ◌⊎◌, inl, inr, subst, List, [], ◌∷◌, ◌++◌, Option, none,
  some, Bool, true, false, not, Bytes, length, take, replicate, bytes_eq, bytes_eq_refl, All, ◌&&◌,
  if◌then◌else◌, arith,
}
use bedrock_debug_proxy.ResourcePack.Cfb8.{Block, block_size, xor_loop, decrypt_bytes}
use bedrock_debug_proxy.ResourcePack.Cfb8.Laws.{
  encrypt_cfb8, xor_loop-synchronises, decrypt_bytes-encrypt_cfb8,
}
use bedrock_debug_proxy.ResourcePack.Paths.{
  Text, slash, dot, parent, has_prefix, elements, clean_content_path,
}
use bedrock_debug_proxy.ResourcePack.Paths.Safe.{
  Inside, CleanLaws, first_element, clean_content_path-Inside,
}
use bedrock_debug_proxy.ResourcePack.Header.{contents_header_size, read_header}
use bedrock_debug_proxy.ResourcePack.Header.Canonical.{header_of, read_header-header_of}

-- A cipher whose key stream depends on the register's first two bytes.
abbrev pub block : Block
block [] = 5 ∷ []
block (a ∷ []) = a ∷ []
block (a ∷ b ∷ register) = b ∷ a ∷ []

abbrev pub new_cipher : Bytes → Option Block
new_cipher key = some block

abbrev pub pack_key : Bytes
pack_key = replicate 32 7

abbrev pub secret : Bytes
secret = 1 ∷ 200 ∷ 3 ∷ 255 ∷ []

abbrev iv : Bytes
iv = take block_size pack_key

synchronises_example :
    (xor_loop block (xor_loop block (9 ∷ 8 ∷ 7 ∷ 6 ∷ []) secret).1 secret).0
    ≡ (xor_loop block (xor_loop block (1 ∷ 2 ∷ 3 ∷ 4 ∷ []) secret).1 secret).0
synchronises_example =
    xor_loop-synchronises block (9 ∷ 8 ∷ 7 ∷ 6 ∷ []) (1 ∷ 2 ∷ 3 ∷ 4 ∷ []) secret secret
      (omega arith) refl refl

restored_example : decrypt_bytes new_cipher pack_key (encrypt_cfb8 block iv secret) ≡ some secret
restored_example = decrypt_bytes-encrypt_cfb8 new_cipher pack_key secret block refl refl

-- A cleaning that keeps a path without a `..` element, and gives `.` for any other.
abbrev none_is_parent : List Bytes → Bool
none_is_parent [] = true
none_is_parent (e ∷ es) = not (bytes_eq e parent) && none_is_parent es

abbrev pub text : Text
text = record {
  clean = λ name. if none_is_parent (elements name) then name else dot;
  dir = λ name. dot;
  base = λ name. name;
  to_lower = λ name. name;
  valid_string = λ name. true;
  runes = λ name. name;
  is_control = λ value. false;
  trim_space = λ bytes. bytes;
}

none_is_parent-Inside : (es : List Bytes) → none_is_parent es ≡ true → All Inside es
none_is_parent-Inside [] h = tt
none_is_parent-Inside (e ∷ es) h = by_test (bytes_eq e parent) refl (none_is_parent-Inside es) h
  where
    by_test :
        (b : Bool)
        → bytes_eq e parent ≡ b
        → (none_is_parent es ≡ true → All Inside es)
        → (not b && none_is_parent es) ≡ true
        → All Inside (e ∷ es)
    by_test true k rest h' = absurd (cc)
    by_test false k rest h' = (
      (λ same. cc (k, ap (λ (x : Bytes). bytes_eq x parent) same, bytes_eq_refl parent)),
      rest h',
    )

pub text-laws : CleanLaws text
text-laws = record {
  parents_first = λ name relative. by_test name (none_is_parent (elements name)) refl;
}
  where
    by_test :
        (name : Bytes) (b : Bool)
        → none_is_parent (elements name) ≡ b
        → (first_element (if b then name else dot) ≡ parent)
          ⊎ All Inside (elements (if b then name else dot))
    by_test name true h = inr (none_is_parent-Inside (elements name) h)
    by_test name false h = inr ((λ e. cc), tt)

abbrev texture : Bytes
texture = b'a' ∷ b'/' ∷ b'b' ∷ []

path_example :
    (texture ≡ texture) × (has_prefix texture slash ≡ false) × All Inside (elements texture)
unfolding clean_content_path has_prefix bytes_eq
path_example = clean_content_path-Inside text texture texture text-laws refl

header_example :
    (take contents_header_size (header_of secret ++ secret) ≡ header_of secret)
    × (1 ≤ length secret)
    × (length secret ≤ 239)
unfolding read_header bytes_eq
header_example = read_header-header_of text (header_of secret ++ secret) secret refl
