-- ===== src/Capture/Verify/Sound.antt =====
-- internal/capture/verify.go: what a verification without an issue says of the capture.
use bedrock_debug_proxy.Base.{
  ℕ, ◌+◌, ◌≡◌, refl, sym, ap, ◌∙◌, String, str_eq, eq_iff, List, [], ◌∷◌, Option, none, some, true,
  Bytes, All, arith, subst, lookup, Option-cases, inl, inr,
}
use bedrock_debug_proxy.Capture.Schema.{Event, Manifest, schema_version}
use bedrock_debug_proxy.Capture.Result.{Error, ok}
use bedrock_debug_proxy.Capture.Library.{Library}
use bedrock_debug_proxy.Capture.Recorder.{inc64}
use bedrock_debug_proxy.Capture.Verify.{Root, Scan, scan_lines}
use bedrock_debug_proxy.Capture.Verify.Visit.{visit, visit_header, visit_blob}
use bedrock_debug_proxy.Capture.Verify.Events.{
  GoodBlob, SeenGood, CleanHeader, CleanBlob, visit_header-CleanHeader, visit_blob-CleanBlob,
}

-- The events of the lines.
abbrev pub Decoded : Library → List Bytes → List Event → Type 0
Decoded lib [] [] = Unit {0}
Decoded lib [] (e ∷ es) = ⊥
Decoded lib (line ∷ lines) [] = ⊥
Decoded lib (line ∷ lines) (e ∷ es) = (lib.unmarshal_event line ≡ some e) × Decoded lib lines es

-- Numbers that go up by one from `n`, on uint64.
abbrev pub Chain : ℕ → List Event → Type 0
Chain n [] = Unit {0}
Chain n (e ∷ es) = (e.sequence ≡ inc64 n) × Chain e.sequence es

abbrev pub Stamped : String → Event → Type 0
Stamped id e = (e.schema ≡ schema_version) × (e.capture_id ≡ id)

-- The number of events on uint64, from `n`.
abbrev pub count_events : List Event → ℕ → ℕ
count_events [] n = n
count_events (e ∷ es) n = count_events es (inc64 n)

-- What a scan says that ends without an issue.
pub record Scanned (lib : Library) (root : Root) (lines : List Bytes) (s t : Scan) : Type 0 where
  pub es : List Event
  pub decoded : Decoded lib lines es
  pub clean : s.result.issues ≡ []
  pub manifest : t.result.manifest ≡ s.result.manifest
  pub events : t.result.events ≡ count_events es s.result.events
  pub numbered : Chain s.previous_sequence es
  pub stamped : All (Stamped s.result.manifest.capture_id) es
  pub blobs : All (λ (e : Event). GoodBlob lib root e.blob) es

pub str_eq_sound : (a b : String) → str_eq a b ≡ true → a ≡ b
str_eq_sound a b e = (eq_iff a b).0 e

scan_more :
    (lib : Library) (root : Root) (line : Bytes) (lines : List Bytes) (event : Event) (s m t : Scan)
    → lib.unmarshal_event line ≡ some event
    → CleanHeader event s m
    → CleanBlob lib root event.blob m (visit_blob lib root event.sequence event.blob m)
    → Scanned lib root lines (visit_blob lib root event.sequence event.blob m) t
    → Scanned lib root (line ∷ lines) s t
scan_more lib root line lines event s m t is h b rest = record {
  es = event ∷ rest.es;
  decoded = (is, rest.decoded);
  clean = h.clean;
  manifest = rest.manifest ∙ b.manifest ∙ h.manifest;
  events = rest.events ∙ ap (count_events rest.es) (b.events ∙ h.events);
  numbered = (
    ground (arith, h.follows),
    subst (λ n. Chain n rest.es) (b.previous ∙ h.previous) rest.numbered,
  );
  stamped = (
    (str_eq_sound _ _ h.schema, str_eq_sound _ _ h.capture_id),
    subst (λ (x : Manifest). All (Stamped x.capture_id) rest.es) (b.manifest ∙ h.manifest)
        rest.stamped,
  );
  blobs = (b.good, rest.blobs);
}

pub scan_lines-Scanned :
    (lib : Library) (root : Root) (lines : List Bytes) (last : Option Error) (n : ℕ) (s t : Scan)
    → (s.result.issues ≡ [] → SeenGood lib root s)
    → scan_lines lib (visit lib root) lines last n s ≡ ok t
    → t.result.issues ≡ []
    → (last ≡ none) × Scanned lib root lines s t
unfolding scan_lines visit
scan_lines-Scanned lib root [] none n s t seen e clean =
    let same : t ≡ s = ground arith in
    (
      refl,
      record {
        es = [];
        decoded = tt;
        clean = ap (λ (x : Scan). x.result.issues) (sym same) ∙ clean;
        manifest = ap (λ (x : Scan). x.result.manifest) same;
        events = ap (λ (x : Scan). x.result.events) same;
        numbered = tt;
        stamped = tt;
        blobs = tt;
      },
    )
scan_lines-Scanned lib root [] (some x) n s t seen e clean = absurd (cc)
scan_lines-Scanned lib root (line ∷ lines) last n s t seen e clean =
    elim (Option-cases (lib.unmarshal_event line)) [
      | inl bad ↦ absurd (cc (rw (bad, scan_lines) at e))
      | inr (event, is) ↦
          let m = visit_header event s in
          let u = visit_blob lib root event.sequence event.blob m in
          let seen_m : (m.result.issues ≡ [] → SeenGood lib root m) = λ c k p there.
            let h = visit_header-CleanHeader event s c in
            seen h.clean k p (ap (lookup k) (sym h.seen) ∙ there) in
          let seen_u : (u.result.issues ≡ [] → SeenGood lib root u) =
            λ c. (visit_blob-CleanBlob lib root event.sequence event.blob m seen_m c).seen in
          let rest =
            scan_lines-Scanned lib root lines last (n + 1) u t seen_u (rw (is, scan_lines) at e)
              clean in
          let b = visit_blob-CleanBlob lib root event.sequence event.blob m seen_m rest.1.clean in
          (
            rest.0,
            scan_more lib root line lines event s m t is (visit_header-CleanHeader event s b.clean)
                b rest.1,
          )
    ]
