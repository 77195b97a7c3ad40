-- ===== src/ResourcePack/Emit/Keys.antt =====
-- internal/resourcepack/decrypt.go: the key that is declared for an entry.
use bedrock_debug_proxy.Base.{
  ◌≡◌, refl, sym, ap, ◌∙◌, ◌⊎◌, inl, inr, [], none, some, some_eq, Bool, true, false, Bytes, lookup,
  bytes_eq, bytes_eq_refl, bytes_eq_sound, ◌||◌, if◌then◌else◌, Option,
}
use bedrock_debug_proxy.ResourcePack.Paths.{join_archive_path}
use bedrock_debug_proxy.ResourcePack.Emit.{Plan, pack_icon, bug_pack_icon, key_or_empty, entry_key}

-- The pack's manifest and its two icons.
abbrev pub IsMetadata : Plan → Bytes → Type 0
IsMetadata plan name =
    (name ≡ plan.root_manifest)
    ⊎ ((name ≡ join_archive_path plan.root pack_icon)
        ⊎ (name ≡ join_archive_path plan.root bug_pack_icon))

-- No key for the metadata; for any other entry the one of its declaration, and none without it.
abbrev pub DeclaredKey : Plan → Bytes → (key : Bytes) → Type 0
DeclaredKey plan name key =
    (IsMetadata plan name × (key ≡ []))
    ⊎ ((IsMetadata plan name → ⊥)
        × ((lookup name plan.declarations ≡ some key)
            ⊎ ((lookup name plan.declarations ≡ none) × (key ≡ []))))

pub entry_key-DeclaredKey :
    (plan : Plan) (name : Bytes) → DeclaredKey plan name (entry_key plan name)
unfolding entry_key
entry_key-DeclaredKey plan name =
    let icon = join_archive_path plan.root pack_icon in
    let bug_icon = join_archive_path plan.root bug_pack_icon in
    by_tests (bytes_eq name plan.root_manifest) (bytes_eq name icon) (bytes_eq name bug_icon) refl
      refl refl
  where
    differs : (other : Bytes) → bytes_eq name other ≡ false → name ≡ other → ⊥
    differs other k same = cc (sym k, ap (bytes_eq name) (sym same), bytes_eq_refl name)

    by_declaration :
        (o : Option Bytes)
        → lookup name plan.declarations ≡ o
        → (IsMetadata plan name → ⊥)
        → DeclaredKey plan name (key_or_empty o)
    by_declaration none e other = inr (other, inr (e, refl))
    by_declaration (some key) e other = inr (other, inl e)

    by_tests :
        (a b c : Bool)
        → bytes_eq name plan.root_manifest ≡ a
        → bytes_eq name (join_archive_path plan.root pack_icon) ≡ b
        → bytes_eq name (join_archive_path plan.root bug_pack_icon) ≡ c
        → DeclaredKey plan name
            (if a || (b || c) then [] else key_or_empty (lookup name plan.declarations))
    by_tests true b c ha hb hc = inl (inl (bytes_eq_sound name _ ha), refl)
    by_tests false true c ha hb hc = inl (inr (inl (bytes_eq_sound name _ hb)), refl)
    by_tests false false true ha hb hc = inl (inr (inr (bytes_eq_sound name _ hc)), refl)
    by_tests false false false ha hb hc =
        by_declaration (lookup name plan.declarations) refl none_of
      where
        none_of : IsMetadata plan name → ⊥
        none_of (inl same) = differs _ ha same
        none_of (inr (inl same)) = differs _ hb same
        none_of (inr (inr same)) = differs _ hc same

pub DeclaredKey-unique :
    (plan : Plan) (name key other : Bytes)
    → DeclaredKey plan name key
    → DeclaredKey plan name other
    → key ≡ other
DeclaredKey-unique plan name key other (inl (_, e)) (inl (_, e')) = e ∙ sym e'
DeclaredKey-unique plan name key other (inl (meta, e)) (inr (other_file, _)) =
    absurd (other_file meta)
DeclaredKey-unique plan name key other (inr (other_file, _)) (inl (meta, e)) =
    absurd (other_file meta)
DeclaredKey-unique plan name key other (inr (_, inl e)) (inr (_, inl e')) =
    some_eq key other (sym e ∙ e')
DeclaredKey-unique plan name key other (inr (_, inl e)) (inr (_, inr (e', _))) = absurd (cc)
DeclaredKey-unique plan name key other (inr (_, inr (e, _))) (inr (_, inl e')) = absurd (cc)
DeclaredKey-unique plan name key other (inr (_, inr (_, e))) (inr (_, inr (_, e'))) = e ∙ sym e'
