-- ===== src/Capture/Verify/Intact.antt =====
-- internal/capture/verify.go: `Verify` finds no issue only where the capture is intact.
use bedrock_debug_proxy.Base.{
  ℕ, ◌≡◌, refl, sym, ap, ◌∙◌, str_eq, List, [], ◌∷◌, Option, none, some, true, Bytes, All, All-map,
  arith, subst, ◌==◌, not, length, lookup, Option-cases, ◌⊎◌, inl, inr,
}
use bedrock_debug_proxy.Capture.Schema.{Event, Manifest, schema_version}
use bedrock_debug_proxy.Capture.Result.{Error, Result, ok, err}
use bedrock_debug_proxy.Capture.Library.{Library, blob_root}
use bedrock_debug_proxy.Capture.Verify.{
  Root, Scan, read_manifest, scan_end, scan_lines, scan_events, manifest_schema,
  manifest_events_path, manifest_blob_root, manifest_events, manifest_blobs, manifest_blob_bytes,
}
use bedrock_debug_proxy.Capture.Verify.Visit.{
  note, report, visit, visit_manifest, start_scan, verify,
}
use bedrock_debug_proxy.Capture.Verify.Events.{GoodBlob, note-Noted, not-false}
use bedrock_debug_proxy.Capture.Verify.Blobs.{HasBlob, GoodBlob-HasBlob}
use bedrock_debug_proxy.Capture.Verify.Sound.{
  Decoded, Chain, Stamped, count_events, scan_lines-Scanned, str_eq_sound,
}

-- A capture that is what its manifest says: whole lines that decode to events, numbered from 1 and
-- stamped with the capture's identifier; and each blob that an event names is a regular file at the
-- path of its digest, with the size and the digest that the event gives.
pub record Intact (lib : Library) (root : Root) (m : Manifest) : Type 0 where
  pub lines : List Bytes
  pub es : List Event
  pub manifest : read_manifest lib root ≡ ok m
  pub stream : root.events ≡ ok (lines, [], none)
  pub decoded : Decoded lib lines es
  pub numbered : Chain 0 es
  pub stamped : All (Stamped m.capture_id) es
  pub blobs : All (λ (e : Event). HasBlob lib root e.blob) es
  pub event_count : m.counts.events ≡ count_events es 0
  pub schema : m.schema ≡ schema_version
  pub events_path : m.events_path ≡ "events.jsonl"
  pub blob_root_path : m.blob_root ≡ blob_root

record CleanManifest (s : Scan) : Type 0 where
  clean : s.result.issues ≡ []
  schema : s.result.manifest.schema ≡ schema_version
  events_path : s.result.manifest.events_path ≡ "events.jsonl"
  blob_root_path : s.result.manifest.blob_root ≡ blob_root
  event_count : s.result.manifest.counts.events ≡ s.result.events
  kept : (visit_manifest s).result.manifest ≡ s.result.manifest

visit_manifest-CleanManifest : (s : Scan) → (visit_manifest s).result.issues ≡ [] → CleanManifest s
unfolding visit_manifest report
visit_manifest-CleanManifest s h =
    let m = s.result.manifest in
    let s0 = report "manifest" s.previous_sequence s in
    let n1 = note-Noted (not (str_eq m.schema schema_version)) (manifest_schema m.schema) s0 in
    let s1 = note (not (str_eq m.schema schema_version)) (manifest_schema m.schema) s0 in
    let n2 =
      note-Noted (not (str_eq m.events_path "events.jsonl")) (manifest_events_path m.events_path)
        s1 in
    let s2 =
      note (not (str_eq m.events_path "events.jsonl")) (manifest_events_path m.events_path) s1 in
    let n3 = note-Noted (not (str_eq m.blob_root blob_root)) (manifest_blob_root m.blob_root) s2 in
    let s3 = note (not (str_eq m.blob_root blob_root)) (manifest_blob_root m.blob_root) s2 in
    let n4 =
      note-Noted (not (m.counts.events == s.result.events))
        (manifest_events m.counts.events s.result.events) s3 in
    let s4 =
      note (not (m.counts.events == s.result.events))
        (manifest_events m.counts.events s.result.events) s3 in
    let n5 =
      note-Noted (not (m.counts.blobs == s.result.blobs))
        (manifest_blobs m.counts.blobs s.result.blobs) s4 in
    let s5 =
      note (not (m.counts.blobs == s.result.blobs)) (manifest_blobs m.counts.blobs s.result.blobs)
        s4 in
    let n6 =
      note-Noted (not (m.counts.blob_bytes == s.blob_bytes))
        (manifest_blob_bytes m.counts.blob_bytes s.blob_bytes) s5 in
    let c6 = n6.keeps h in
    let c5 = n5.keeps c6.1 in
    let c4 = n4.keeps c5.1 in
    let c3 = n3.keeps c4.1 in
    let c2 = n2.keeps c3.1 in
    let c1 = n1.keeps c2.1 in
    let counted : (m.counts.events == s.result.events) ≡ true = not-false _ c4.0 in
    record {
      clean = c1.1;
      schema = str_eq_sound _ _ (not-false _ c1.0);
      events_path = str_eq_sound _ _ (not-false _ c2.0);
      blob_root_path = str_eq_sound _ _ (not-false _ c3.0);
      event_count = ground (arith, counted);
      kept = n6.manifest ∙ n5.manifest ∙ n4.manifest ∙ n3.manifest ∙ n2.manifest ∙ n1.manifest;
    }

scan_end-nil :
    (rest : Bytes) (e : Option Error) (n : ℕ) → scan_end rest e n ≡ none → (rest ≡ []) × (e ≡ none)
unfolding scan_end
scan_end-nil [] none n h = (refl, refl)
scan_end-nil [] (some x) n h = absurd (cc)
scan_end-nil (b ∷ rest) e n h = absurd (cc)

stream-Intact :
    (lib : Library) (root : Root) (m : Manifest) (lines : List Bytes) (rest : Bytes)
    (last : Option Error) (t : Scan)
    → read_manifest lib root ≡ ok m
    → root.events ≡ ok (lines, rest, last)
    → scan_lines lib (visit lib root) lines (scan_end rest last (length lines)) 0 (start_scan m)
      ≡ ok t
    → (visit_manifest t).result.issues ≡ []
    → ((visit_manifest t).result.manifest ≡ m) × Intact lib root m
unfolding start_scan
stream-Intact lib root m lines rest last t is there e clean =
    let c = visit_manifest-CleanManifest t clean in
    let scanned =
      scan_lines-Scanned lib root lines (scan_end rest last (length lines)) 0 (start_scan m) t
        (λ _ k p none_yet. absurd (unfold lookup in cc none_yet)) e c.clean in
    let ends = scan_end-nil rest last _ scanned.0 in
    let found = scanned.1 in
    (
      c.kept ∙ found.manifest,
      record {
        lines = lines;
        es = found.es;
        manifest = is;
        stream =
            there
            ∙ ap (λ (p : Bytes × Option Error). ok (lines, p.0, p.1))
                (ap (λ (x : Bytes). (x, last)) ends.0 ∙ ap (λ (x : Option Error). ([], x)) ends.1);
        decoded = found.decoded;
        numbered = found.numbered;
        stamped = found.stamped;
        blobs =
            All-map (λ (e : Event). GoodBlob lib root e.blob)
              (λ (e : Event). HasBlob lib root e.blob)
              (λ e good. GoodBlob-HasBlob lib root e.blob good) found.es found.blobs;
        event_count =
            ap (λ (x : Manifest). x.counts.events) (sym found.manifest)
            ∙ c.event_count
            ∙ found.events;
        schema = ap (λ (x : Manifest). x.schema) (sym found.manifest) ∙ c.schema;
        events_path = ap (λ (x : Manifest). x.events_path) (sym found.manifest) ∙ c.events_path;
        blob_root_path = ap (λ (x : Manifest). x.blob_root) (sym found.manifest) ∙ c.blob_root_path;
      },
    )

ok_eq : (a b : Scan) → ok a ≡ ok b → a ≡ b
ok_eq a b e = cc

Result-cases {ℓ} :
    {A : Type ℓ} (x : Result A) → ((e : Error) × (x ≡ err e)) ⊎ ((a : A) × (x ≡ ok a))
Result-cases (err e) = inl (e, refl)
Result-cases (ok a) = inr (a, refl)

events-Intact :
    (lib : Library) (root : Root) (m : Manifest) (t : Scan)
    → read_manifest lib root ≡ ok m
    → scan_events lib root (visit lib root) (start_scan m) ≡ ok t
    → (visit_manifest t).result.issues ≡ []
    → ((visit_manifest t).result.manifest ≡ m) × Intact lib root m
unfolding scan_events
events-Intact lib root m t is e clean = elim (Result-cases root.events) [
  | inl (x, bad) ↦ absurd (cc (rw (bad, scan_events) at e))
  | inr (stream, there) ↦
      stream-Intact lib root m stream.0 stream.1 stream.2 t is there (rw (there, scan_events) at e)
        clean
]

-- A verification that ends without an error and without an issue, for any directory: the manifest it
-- returns is the one on disk; the event stream is whole lines, that decode to events, numbered from 1
-- on uint64 without a gap and stamped with the schema and the manifest's capture identifier; the
-- manifest counts these events; and every blob that an event names, also where an earlier event
-- named it, has a digest of 64 digits in lower case and the path of this digest, and the file at this
-- path opens, is regular, and its bytes are as many as the event says and have this digest.
pub verify-Intact :
    (lib : Library) (root : Root) (s : Scan)
    → verify lib root ≡ ok s
    → s.result.issues ≡ []
    → Intact lib root s.result.manifest
unfolding verify
verify-Intact lib root s e clean = elim (Result-cases (read_manifest lib root)) [
  | inl (x, bad) ↦ absurd (cc (rw (bad, verify) at e))
  | inr (m, is) ↦ elim (Option-cases root.symlinks_error) [
    | inr (x, bad) ↦ absurd (cc (rw (is, bad, verify) at e))
    | inl fine ↦ elim (Result-cases (scan_events lib root (visit lib root) (start_scan m))) [
      | inl (x, bad) ↦ absurd (cc (rw (is, fine, bad, verify) at e))
      | inr (t, scanned) ↦
          let same : visit_manifest t ≡ s =
            ok_eq (visit_manifest t) s (rw (is, fine, scanned, verify) at e) in
          let whole =
            events-Intact lib root m t is scanned
              (ap (λ (x : Scan). x.result.issues) same ∙ clean) in
          subst (Intact lib root) (sym whole.0 ∙ ap (λ (x : Scan). x.result.manifest) same) whole.1
    ]
  ]
]
