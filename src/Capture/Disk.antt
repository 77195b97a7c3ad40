-- ===== src/Capture/Disk.antt =====
-- The files under a capture's root, and `writeAll` of internal/capture/recorder.go. What the
-- operating system answers is an argument of each operation.
use bedrock_debug_proxy.Base.{
  ℕ, zero, suc, ◌≤◌, ◌<◌, ◌≡◌, refl, sym, List, [], ◌∷◌, ◌++◌, Option, none, some, Bytes, length,
  take, drop, ◌==◌, if◌then◌else◌, arith, append_assoc, append-nil, take-append-drop, length-drop,
}
use bedrock_debug_proxy.Capture.Result.{Error, short_write}

pub record Disk : Type 0 where
  pub events : Bytes  -- events.jsonl
  pub blobs : List (Bytes × Bytes)  -- published blob files, by path
  pub temporaries : List ℕ  -- `.tmp-%d` files
  pub manifest : Option Bytes  -- manifest.json

-- `Write` on a file: how many bytes of the argument it took, and its error.
abbrev pub Writer : Type 0
Writer = Bytes → ℕ × Option Error

pub record Written : Type 0 where
  pub file : Bytes
  pub error : Option Error

-- Each round takes at least one byte or returns, so the length of the bytes is enough fuel.
unfoldable pub write_rounds : ℕ → Writer → Bytes → Bytes → Written
write_rounds zero w file [] = record { file = file; error = none }
write_rounds zero w file (b ∷ rest) = record { file = file; error = some short_write }
write_rounds (suc fuel) w file [] = record { file = file; error = none }
write_rounds (suc fuel) w file (b ∷ rest) =
    let (n, e) = w (b ∷ rest) in
    let file' = file ++ take n (b ∷ rest) in
    let more = write_rounds fuel w file' (drop n (b ∷ rest)) in
    elim e [
      | some x ↦ record { file = file'; error = some x }
      | none ↦ if n == 0 then record { file = file; error = some short_write } else more
    ]

unfoldable pub write_all : Writer → Bytes → Bytes → Written
write_all w file bytes = write_rounds (length bytes) w file bytes

write_rounds-ok :
    (fuel : ℕ) (w : Writer) (file bytes : Bytes)
    → length bytes ≤ fuel
    → (write_rounds fuel w file bytes).error ≡ none
    → (write_rounds fuel w file bytes).file ≡ file ++ bytes
unfolding write_rounds
write_rounds-ok zero w file [] h e = sym (append-nil file)
write_rounds-ok zero w file (b ∷ rest) h e = absurd (omega arith)
write_rounds-ok (suc fuel) w file [] h e = sym (append-nil file)
write_rounds-ok (suc fuel) w file (b ∷ rest) h e =
    let bytes : Bytes = b ∷ rest in
    let n : ℕ = (w bytes).0 in
    ground (
      arith,
      write_rounds-ok fuel w (file ++ take n bytes) (drop n bytes),
      length-drop n bytes,
      take-append-drop n bytes,
      append_assoc file (take n bytes) (drop n bytes),
    )

-- A writer that always takes something and reports no error.
abbrev pub Accepts : Writer → Type 0
Accepts w = (b : ℕ) (rest : Bytes) → (0 < (w (b ∷ rest)).0) × ((w (b ∷ rest)).1 ≡ none)

write_rounds_total :
    (fuel : ℕ) (w : Writer) (file bytes : Bytes)
    → Accepts w
    → length bytes ≤ fuel
    → (write_rounds fuel w file bytes).error ≡ none
unfolding write_rounds
write_rounds_total zero w file [] a h = refl
write_rounds_total zero w file (b ∷ rest) a h = absurd (omega arith)
write_rounds_total (suc fuel) w file [] a h = refl
write_rounds_total (suc fuel) w file (b ∷ rest) a h =
    let bytes : Bytes = b ∷ rest in
    let n : ℕ = (w bytes).0 in
    ground (
      arith,
      a b rest,
      write_rounds_total fuel w (file ++ take n bytes) (drop n bytes) a,
      length-drop n bytes,
    )

pub write_all-ok :
    (w : Writer) (file bytes : Bytes)
    → (write_all w file bytes).error ≡ none
    → (write_all w file bytes).file ≡ file ++ bytes
unfolding write_all
write_all-ok w file bytes e = write_rounds-ok (length bytes) w file bytes (omega arith) e

-- With a writer that takes at least one byte each time and reports no error, however it splits the
-- bytes, the loop ends without an error and the file has all of them at its end.
pub write_all_total :
    (w : Writer) (file bytes : Bytes)
    → Accepts w
    → ((write_all w file bytes).error ≡ none) × ((write_all w file bytes).file ≡ file ++ bytes)
unfolding write_all
write_all_total w file bytes a =
    let done = write_rounds_total (length bytes) w file bytes a (omega arith) in
    (done, write_rounds-ok (length bytes) w file bytes (omega arith) done)
