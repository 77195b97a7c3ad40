-- ===== src/ResourcePack/Outcome.antt =====
-- internal/resourcepack/decrypt.go: its errors as values, one constructor for each message.
use bedrock_debug_proxy.Base.{ℕ, ◌≡◌, refl, Bool, true, false, Bytes, Option, none, some}
use bedrock_debug_proxy.ResourcePack.Paths.{PathError}
use bedrock_debug_proxy.ResourcePack.Header.{HeaderError}

pub data Refusal : Type 0 where
  key_size open_archive no_manifest no_contents too_many_manifests : Refusal
  too_many_entries : ℕ → Refusal
  bad_path : PathError → Refusal
  duplicate_entry : Bytes → Refusal
  -- Of a contents manifest.
  bad_header : HeaderError → Refusal
  bad_cipher bad_json no_content_array bad_entries : Refusal
  plaintext_limit declaration_limit : Refusal
  other_content_id : Bytes → Refusal
  declared_twice missing_entry keyed_directory : Bytes → Refusal
  bad_entry_key : Bytes → ℕ → Refusal
  -- Of an entry.
  entry_too_large open_entry read_entry payload_limit copy_entry : Refusal
  symbolic_link irregular create_entry oversized : Bytes → Refusal
  wrong_size : Bytes → ℕ → Refusal
  set_comment_failed close_failed : Refusal

pub data Outcome {ℓ} (A : Type ℓ) : Type ℓ where
  done : A → Outcome A
  refused : Refusal → Outcome A

infixl 5 ◌>>=◌ ◌>>◌
abbrev pub ◌>>=◌ {ℓ κ} : {A : Type ℓ} {B : Type κ} → Outcome A → (A → Outcome B) → Outcome B
done a >>= f = f a
refused e >>= f = refused e

abbrev pub ◌>>◌ {ℓ} : {B : Type ℓ} → Outcome (Unit {0}) → Outcome B → Outcome B
m >> k = m >>= λ _. k

abbrev pub guard : Bool → Refusal → Outcome (Unit {0})
guard true e = done tt
guard false e = refused e

abbrev pub is_refused {ℓ} : {A : Type ℓ} → Outcome A → Bool
is_refused (done a) = false
is_refused (refused e) = true

abbrev pub from_path : Option PathError × Bytes → Outcome Bytes
from_path (none, name) = done name
from_path (some e, name) = refused (bad_path e)

abbrev pub from_option {ℓ} : {A : Type ℓ} → Option A → Refusal → Outcome A
from_option none e = refused e
from_option (some a) e = done a

module _ {ℓ κ} {A : Type ℓ} {B : Type κ} where
  pub bind-done :
      (m : Outcome A) (f : A → Outcome B) (b : B)
      → (m >>= f) ≡ done b
      → (a : A) × (m ≡ done a) × (f a ≡ done b)
  bind-done (done a) f b h = (a, refl, h)
  bind-done (refused e) f b h = absurd (cc)

  pub bind-refused :
      (m : Outcome A) (f : A → Outcome B)
      → ((a : A) → m ≡ done a → is_refused (f a) ≡ true)
      → is_refused (m >>= f) ≡ true
  bind-refused (done a) f h = h a refl
  bind-refused (refused e) f h = refl

module _ {ℓ} {B : Type ℓ} where
  pub guard-done :
      (t : Bool) (e : Refusal) (k : Outcome B) (b : B)
      → (guard t e >> k) ≡ done b
      → (t ≡ true) × (k ≡ done b)
  guard-done true e k b h = (refl, h)
  guard-done false e k b h = absurd (cc)

  pub guard-refused :
      (t : Bool) (e : Refusal) (k : Outcome B)
      → (t ≡ true → is_refused k ≡ true)
      → is_refused (guard t e >> k) ≡ true
  guard-refused true e k h = h refl
  guard-refused false e k h = refl

pub done_eq {ℓ} : {A : Type ℓ} (a b : A) → done a ≡ done b → a ≡ b
done_eq a b e = cc

pub from_path-done :
    (p : Option PathError × Bytes) (name : Bytes) → from_path p ≡ done name → p ≡ (none, name)
from_path-done (none, found) name h = cc
from_path-done (some e, found) name h = absurd (cc)

pub from_option-done {ℓ} :
    {A : Type ℓ} (o : Option A) (e : Refusal) (a : A) → from_option o e ≡ done a → o ≡ some a
from_option-done none e a h = absurd (cc)
from_option-done (some b) e a h = cc
