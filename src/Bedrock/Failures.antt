-- ===== src/Bedrock/Failures.antt =====
-- internal/bedrock/failure.go: the first failure of a session. `calls` counts the calls of
-- `onFailure`, which is nil where `has_callback` is false. The lock decides who is first; a call is
-- made after it is released, and reads nothing.
use bedrock_debug_proxy.Base.{
  ℕ, ◌+◌, ◌≡◌, refl, List, [], ◌∷◌, Option, none, some, Bool, true, false, if◌then◌else◌, arith,
}

pub record FailureSink {ℓ} (E : Type ℓ) : Type ℓ where
  pub error : Option E
  pub has_callback : Bool
  pub calls : ℕ

module _ {ℓ} {E : Type ℓ} where
  unfoldable pub new_failure_sink : Bool → FailureSink E
  new_failure_sink has_callback = record { error = none; has_callback = has_callback; calls = 0 }

  unfoldable pub set_failure : Option E → FailureSink E → FailureSink E
  set_failure none sink = sink
  set_failure (some e) sink = elim sink.error [
    | some first ↦ sink
    | none ↦ record sink {
      error = some e;
      calls = if sink.has_callback then sink.calls + 1 else sink.calls;
    }
  ]

  -- `Set` for one result after the other.
  abbrev pub set_all : List (Option E) → FailureSink E → FailureSink E
  set_all [] sink = sink
  set_all (x ∷ xs) sink = set_all xs (set_failure x sink)

  abbrev pub first_error : List (Option E) → Option E
  first_error [] = none
  first_error (some e ∷ xs) = some e
  first_error (none ∷ xs) = first_error xs

  set_all-failed :
      (xs : List (Option E)) (e : E) (sink : FailureSink E)
      → sink.error ≡ some e
      → set_all xs sink ≡ sink
  unfolding set_failure
  set_all-failed [] e sink h = refl
  set_all-failed (none ∷ xs) e sink h = set_all-failed xs e sink h
  set_all-failed (some x ∷ xs) e sink h = ground (arith, set_all-failed xs e sink h, h)

  -- The calls of the callback after the first error of a list, if it has one.
  abbrev pub calls_for : Bool → Option E → ℕ
  calls_for false x = 0
  calls_for true none = 0
  calls_for true (some e) = 1

  -- Whatever results a new sink is given, in this order, it keeps the first error among them, and has
  -- called its callback once if there was an error and never otherwise.
  pub set_all-first :
      (xs : List (Option E)) (has_callback : Bool)
      → (((set_all xs (new_failure_sink has_callback)).error ≡ first_error xs)
          × ((set_all xs (new_failure_sink has_callback)).calls
              ≡ calls_for has_callback (first_error xs)))
  unfolding new_failure_sink set_failure
  set_all-first [] b = ground arith
  set_all-first (none ∷ xs) b = set_all-first xs b
  set_all-first (some e ∷ xs) b =
      let sink = set_failure (some e) (new_failure_sink b) in
      ground (arith, set_all-failed xs e sink refl)
