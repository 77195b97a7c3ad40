-- ===== src/ResourcePack/Entry/Laws.antt =====
-- internal/resourcepack/decrypt.go: a bounded read that is accepted is the whole entry.
use bedrock_debug_proxy.Base.{
  ℕ, suc, zero, ◌+◌, ◌-◌, ◌≤◌, ◌≡◌, refl, sym, ap, ◌∙◌, [], ◌∷◌, none, some, Bool, true, false,
  Bytes, length, take, ltb, leb, if◌then◌else◌, not, arith, Bool-cases, inl, inr,
}
use bedrock_debug_proxy.ResourcePack.Outcome.{
  done, from_option, bind-done, guard-done, done_eq, from_option-done, entry_too_large, open_entry,
  read_entry, payload_limit, copy_entry,
}
use bedrock_debug_proxy.ResourcePack.Entry.{
  Stream, ZipFile, max_contents_manifest_size, read_up_to, read_limited_entry, copy_with_budget,
}

pub not_above : {m n : ℕ} → not (ltb m n) ≡ true → n ≤ m
not_above e = ground (arith, e)

length-take : (n : ℕ) (bytes : Bytes) → n ≤ length bytes → length (take n bytes) ≡ n
length-take zero bytes h = refl
length-take (suc n) [] h = absurd (omega (arith, h))
length-take (suc n) (b ∷ bytes) h = omega (arith, length-take n bytes (omega (arith, h)))

read_up_to-whole :
    (limit : ℕ) (s : Stream) (bytes : Bytes)
    → read_up_to (limit + 1) s ≡ some bytes
    → length bytes ≤ limit
    → (bytes ≡ s.bytes) × (s.fails ≡ false)
unfolding read_up_to
read_up_to-whole limit s bytes h short = elim (Bool-cases (leb (limit + 1) (length s.bytes))) [
  | inl long ↦
      let cut : take (limit + 1) s.bytes ≡ bytes = cc (rw long at h) in
      absurd (
        omega (
          arith,
          short,
          ap length (sym cut),
          length-take (limit + 1) s.bytes (ground (arith, long)),
        ))
  | inr other ↦ ends s.fails refl (rw other at h)
]
  where
    ends :
        (fails : Bool)
        → s.fails ≡ fails
        → (if fails then none else some s.bytes) ≡ some bytes
        → (bytes ≡ s.bytes) × (s.fails ≡ false)
    ends true e k = absurd (cc)
    ends false e k = (cc, e)

pub read_limited_entry-whole :
    (file : ZipFile) (bytes : Bytes)
    → read_limited_entry file ≡ done bytes
    → bytes ≡ file.contents.bytes
unfolding read_limited_entry
read_limited_entry-whole file bytes h =
    let (_, h1) =
      guard-done (not (ltb max_contents_manifest_size file.size)) entry_too_large _ bytes h in
    let (_, h2) = guard-done file.opens open_entry _ bytes h1 in
    let (found, e, h3) =
      bind-done (from_option (read_up_to (max_contents_manifest_size + 1) file.contents) read_entry)
        _ bytes h2 in
    let (short, h4) =
      guard-done (not (ltb max_contents_manifest_size (length found))) entry_too_large _ bytes h3 in
    let whole =
      read_up_to-whole max_contents_manifest_size file.contents found
        (from_option-done (read_up_to (max_contents_manifest_size + 1) file.contents) read_entry
          found e)
        (not_above short) in
    sym (done_eq found bytes h4) ∙ whole.0

-- A copy that is accepted is of the whole source, and the budget loses its length.
pub copy_with_budget-whole :
    (writes : Bool) (source : Stream) (remaining : ℕ) (bytes : Bytes) (remaining' : ℕ)
    → copy_with_budget writes source remaining ≡ done (bytes, remaining')
    → (bytes ≡ source.bytes) × (length bytes + remaining' ≡ remaining)
unfolding copy_with_budget
copy_with_budget-whole writes source remaining bytes remaining' h =
    let (found, e, h1) =
      bind-done (from_option (read_up_to (remaining + 1) source) copy_entry) _ (bytes, remaining')
        h in
    let (_, h2) = guard-done writes copy_entry _ (bytes, remaining') h1 in
    let (short, h3) =
      guard-done (not (ltb remaining (length found))) payload_limit _ (bytes, remaining') h2 in
    let same = done_eq (found, remaining - length found) (bytes, remaining') h3 in
    let whole =
      read_up_to-whole remaining source found
        (from_option-done (read_up_to (remaining + 1) source) copy_entry found e)
        (not_above short) in
    let is : found ≡ bytes = ap (λ (p : Bytes × ℕ). p.0) same in
    let rest : remaining - length found ≡ remaining' = ap (λ (p : Bytes × ℕ). p.1) same in
    (sym is ∙ whole.0, omega (arith, not_above short, ap length is, rest))
