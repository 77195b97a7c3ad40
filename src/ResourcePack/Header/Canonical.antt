-- ===== src/ResourcePack/Header/Canonical.antt =====
-- internal/resourcepack/decrypt.go: a header is accepted only in one form.
use bedrock_debug_proxy.Base.{
  ℕ, suc, zero, ◌+◌, ◌-◌, ◌≤◌, ◌<◌, ◌≡◌, refl, sym, ap, ◌∙◌, subst, [], ◌∷◌, ◌++◌, none, some,
  Option, Bool, true, false, Bytes, length, take, drop, replicate, bytes_eq, bytes_eq_sound, ◌==◌,
  ltb, if◌then◌else◌, ◌||◌, not, arith, take-append-drop, length-drop,
}
use bedrock_debug_proxy.ResourcePack.Paths.{Text}
use bedrock_debug_proxy.ResourcePack.Header.{
  contents_header_size, contents_magic, all_zero, little_endian, byte_at, read_header, HeaderError,
  too_short, unsupported_version, wrong_magic, reserved_bytes, content_id_length, content_id_text,
  header_padding,
}

-- The header of a content identifier.
abbrev pub header_of : Bytes → Bytes
header_of id =
    replicate 4 0
    ++ (contents_magic
        ++ (replicate 8 0
            ++ (length id ∷ id ++ replicate (contents_header_size - 17 - length id) 0)))

all_zero-replicate : (bytes : Bytes) → all_zero bytes ≡ true → bytes ≡ replicate (length bytes) 0
unfolding all_zero
all_zero-replicate [] h = refl
all_zero-replicate (b ∷ bytes) h = ground (arith, all_zero-replicate bytes, h)

little_endian-zero : (bytes : Bytes) → little_endian bytes ≡ 0 → bytes ≡ replicate (length bytes) 0
unfolding little_endian
little_endian-zero [] h = refl
little_endian-zero (b ∷ bytes) h = ground (arith, little_endian-zero bytes, h)

length-take : (n : ℕ) (bytes : Bytes) → n ≤ length bytes → length (take n bytes) ≡ n
length-take zero bytes h = refl
length-take (suc n) [] h = absurd (omega (arith, h))
length-take (suc n) (b ∷ bytes) h = ap suc (length-take n bytes (omega (arith, h)))

drop-nil : (m : ℕ) → drop {A = ℕ} m [] ≡ []
drop-nil zero = refl
drop-nil (suc m) = refl

drop-drop : (m n : ℕ) (bytes : Bytes) → drop m (drop n bytes) ≡ drop (n + m) bytes
drop-drop m zero bytes = let e : m ≡ 0 + m = omega arith in ap (λ (k : ℕ). drop k bytes) e
drop-drop m (suc n) [] =
    let e : suc (n + m) ≡ suc n + m = omega arith in
    drop-nil m ∙ ap (λ (k : ℕ). drop {A = ℕ} k []) e
drop-drop m (suc n) (b ∷ bytes) =
    let e : suc (n + m) ≡ suc n + m = omega arith in
    drop-drop m n bytes ∙ ap (λ (k : ℕ). drop k (b ∷ bytes)) e

drop-byte_at :
    (n : ℕ) (bytes : Bytes) → n < length bytes → drop n bytes ≡ byte_at n bytes ∷ drop (suc n) bytes
drop-byte_at n [] h = absurd (omega (arith, h))
drop-byte_at zero (b ∷ bytes) h = refl
drop-byte_at (suc n) (b ∷ bytes) h = drop-byte_at n bytes (omega (arith, h))

append-parts :
    (a b : ℕ) (bytes part rest : Bytes)
    → take a (drop b bytes) ≡ part
    → drop (b + a) bytes ≡ rest
    → drop b bytes ≡ part ++ rest
append-parts a b bytes part rest h k =
    sym (take-append-drop a (drop b bytes))
    ∙ ap (λ (x : Bytes). x ++ drop a (drop b bytes)) h
    ∙ ap (λ (x : Bytes). part ++ x) (drop-drop a b bytes ∙ k)

zeros_of :
    (n : ℕ) (bytes : Bytes) → length bytes ≡ n → all_zero bytes ≡ true → bytes ≡ replicate n 0
zeros_of n bytes h k = subst (λ (x : ℕ). bytes ≡ replicate x 0) h (all_zero-replicate bytes k)

part-length :
    (n : ℕ) (bytes : Bytes) (m : ℕ) → n + m ≤ length bytes → length (take m (drop n bytes)) ≡ m
part-length n bytes m h = length-take m (drop n bytes) (omega (arith, h, length-drop n bytes))

-- The tests of `read_header` that an accepted header has passed.
record Passed (header : Bytes) (id : Bytes) : Type 0 where
  version : little_endian (take 4 header) ≡ 0
  magic : take 4 (drop 4 header) ≡ contents_magic
  reserved : all_zero (take 8 (drop 8 header)) ≡ true
  not_empty : 1 ≤ byte_at 16 header
  fits : 17 + byte_at 16 header ≤ contents_header_size
  is_id : take (byte_at 16 header) (drop 17 header) ≡ id
  padding : all_zero (drop (17 + byte_at 16 header) header) ≡ true

Passed-header_of :
    (header id : Bytes)
    → length header ≡ contents_header_size
    → Passed header id
    → (header ≡ header_of id) × (length id ≡ byte_at 16 header)
Passed-header_of header id h p =
    let n = byte_at 16 header in
    let long : length id ≡ n =
      ap length (sym p.is_id) ∙ part-length 17 header n (omega (arith, h, p.fits)) in
    let version : take 4 header ≡ replicate 4 0 =
      little_endian-zero (take 4 header) p.version
      ∙ ap (λ (x : ℕ). replicate x 0) (part-length 0 header 4 (omega (arith, h))) in
    let padding : drop (17 + n) header ≡ replicate (contents_header_size - 17 - length id) 0 =
      zeros_of (contents_header_size - 17 - length id) (drop (17 + n) header)
        (omega (arith, length-drop (17 + n) header, h, long, p.fits)) p.padding in
    let reserved : take 8 (drop 8 header) ≡ replicate 8 0 =
      zeros_of 8 (take 8 (drop 8 header)) (part-length 8 header 8 (omega (arith, h))) p.reserved in
    let id_part : drop 17 header ≡ id ++ replicate (contents_header_size - 17 - length id) 0 =
      append-parts n 17 header id (replicate (contents_header_size - 17 - length id) 0) p.is_id
        padding in
    let from_length : drop 16 header
        ≡ length id ∷ id ++ replicate (contents_header_size - 17 - length id) 0 =
      drop-byte_at 16 header (omega (arith, h))
      ∙ ap (λ (x : ℕ). x ∷ drop 17 header) (sym long)
      ∙ ap (λ (x : Bytes). length id ∷ x) id_part in
    let from_reserved : drop 8 header
        ≡ replicate 8 0 ++ (length id ∷ id ++ replicate (contents_header_size - 17 - length id) 0) =
      append-parts 8 8 header (replicate 8 0)
        (length id ∷ id ++ replicate (contents_header_size - 17 - length id) 0) reserved
        from_length in
    let from_magic : drop 4 header
        ≡ contents_magic
          ++ (replicate 8 0
              ++ (length id ∷ id ++ replicate (contents_header_size - 17 - length id) 0)) =
      append-parts 4 4 header contents_magic
        (replicate 8 0 ++ (length id ∷ id ++ replicate (contents_header_size - 17 - length id) 0))
        p.magic from_reserved in
    (
      append-parts 4 0 header (replicate 4 0)
          (contents_magic
            ++ (replicate 8 0
                ++ (length id ∷ id ++ replicate (contents_header_size - 17 - length id) 0)))
          version from_magic,
      long,
    )

abbrev header_result : (t1 t2 t3 t4 t5 t6 t7 : Bool) → Bytes → Option HeaderError × Bytes
header_result t1 t2 t3 t4 t5 t6 t7 found =
    if t1
    then (some too_short, [])
    else if t2
    then (some unsupported_version, [])
    else if t3
    then (some wrong_magic, [])
    else if t4
    then (some reserved_bytes, [])
    else if t5
    then (some content_id_length, [])
    else if t6
    then (some content_id_text, [])
    else if t7
    then (some header_padding, [])
    else (none, found)

passed_tests :
    (t1 t2 t3 t4 t5 t6 t7 : Bool) (found id : Bytes)
    → header_result t1 t2 t3 t4 t5 t6 t7 found ≡ (none, id)
    → (t1 ≡ false)
      × (t2 ≡ false)
      × (t3 ≡ false)
      × (t4 ≡ false)
      × (t5 ≡ false)
      × (t7 ≡ false)
      × (found ≡ id)
passed_tests true t2 t3 t4 t5 t6 t7 found id h = absurd (cc)
passed_tests false true t3 t4 t5 t6 t7 found id h = absurd (cc)
passed_tests false false true t4 t5 t6 t7 found id h = absurd (cc)
passed_tests false false false true t5 t6 t7 found id h = absurd (cc)
passed_tests false false false false true t6 t7 found id h = absurd (cc)
passed_tests false false false false false true t7 found id h = absurd (cc)
passed_tests false false false false false false true found id h = absurd (cc)
passed_tests false false false false false false false found id h =
    (refl, refl, refl, refl, refl, refl, cc)

undo_not : (t : Bool) → not t ≡ false → t ≡ true
undo_not true h = refl
undo_not false h = absurd (cc)

read_header-Passed :
    (text : Text) (file id : Bytes)
    → read_header text file ≡ (none, id)
    → (contents_header_size ≤ length file) × Passed (take contents_header_size file) id
unfolding read_header
read_header-Passed text file id h =
    let header = take contents_header_size file in
    let n = byte_at 16 header in
    let (t1, t2, t3, t4, t5, t7, is) =
      passed_tests (ltb (length file) contents_header_size)
        (not (little_endian (take 4 header) == 0))
        (not (bytes_eq (take 4 (drop 4 header)) contents_magic))
        (not (all_zero (take 8 (drop 8 header)))) (n == 0 || ltb contents_header_size (17 + n))
        (not (text.valid_string (take n (drop 17 header)))) (not (all_zero (drop (17 + n) header)))
        (take n (drop 17 header)) id h in
    (
      not_short file t1,
      record {
        version = equals_zero (little_endian (take 4 header)) t2;
        magic =
            bytes_eq_sound (take 4 (drop 4 header)) contents_magic
              (undo_not (bytes_eq (take 4 (drop 4 header)) contents_magic) t3);
        reserved = undo_not (all_zero (take 8 (drop 8 header))) t4;
        not_empty = (in_range n t5).0;
        fits = (in_range n t5).1;
        is_id = is;
        padding = undo_not (all_zero (drop (17 + n) header)) t7;
      },
    )
  where
    not_short :
        (bytes : Bytes)
        → ltb (length bytes) contents_header_size ≡ false
        → contents_header_size ≤ length bytes
    not_short bytes e = ground (arith, e)

    equals_zero : (n : ℕ) → not (n == 0) ≡ false → n ≡ 0
    equals_zero n e = ground (arith, e)

    in_range :
        (n : ℕ)
        → (n == 0 || ltb contents_header_size (17 + n)) ≡ false
        → (1 ≤ n) × (17 + n ≤ contents_header_size)
    in_range n e = ground (arith, e)

-- A contents manifest that is accepted begins with the one header that its content identifier has,
-- and the identifier has 1 to 239 bytes.
pub read_header-header_of :
    (text : Text) (file id : Bytes)
    → read_header text file ≡ (none, id)
    → (take contents_header_size file ≡ header_of id) × (1 ≤ length id) × (length id ≤ 239)
read_header-header_of text file id h =
    let (enough, p) = read_header-Passed text file id h in
    let (same, long) =
      Passed-header_of (take contents_header_size file) id
        (length-take contents_header_size file enough) p in
    (same, omega (arith, long, p.not_empty), omega (arith, long, p.fits))
