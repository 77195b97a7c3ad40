-- ===== src/Proxy/PackCache/Kept.antt =====
-- internal/proxy/resource_pack_url.go: `Merge` does not discard a pack.
use bedrock_debug_proxy.Base.{
  ◌≡◌, refl, ap, ◌⊎◌, inl, inr, subst, List, [], ◌∷◌, ◌++◌, Option, none, some, true, false, All,
  arith, Bool-cases, All-map,
}
use bedrock_debug_proxy.Proxy.PackCache.{Key, PackType, resource_pack_key}
use bedrock_debug_proxy.Proxy.PackCache.Laws.{key_eq_sound}
use bedrock_debug_proxy.Proxy.PackCache.Merge.{Slot, fits, take_slot}

-- Whether a list holds a value.
abbrev pub Holds : {A : Type 0} → A → List A → Type 0
Holds a [] = ⊥
Holds a (x ∷ xs) = (x ≡ a) ⊎ Holds a xs

pub Holds-left : {A : Type 0} (a : A) (xs ys : List A) → Holds a xs → Holds a (xs ++ ys)
Holds-left a [] ys h = absurd h
Holds-left a (x ∷ xs) ys (inl e) = inl e
Holds-left a (x ∷ xs) ys (inr h) = inr (Holds-left a xs ys h)

pub Holds-right : {A : Type 0} (a : A) (xs ys : List A) → Holds a ys → Holds a (xs ++ ys)
Holds-right a [] ys h = h
Holds-right a (x ∷ xs) ys h = inr (Holds-right a xs ys h)

module _ (t : PackType) where
  -- Of an entry that is used up.
  abbrev pub UsedIf : (t.Pack → Type 0) → Slot t → Type 0
  UsedIf P (true, some p) = P p
  UsedIf P (true, none) = Unit {0}
  UsedIf P (false, p) = Unit {0}

  abbrev pub packs_in : List (Slot t) → List (Option t.Pack)
  packs_in [] = []
  packs_in (slot ∷ slots) = slot.1 ∷ packs_in slots

  pub UsedIf-map :
      (P Q : t.Pack → Type 0)
      → ((p : t.Pack) → P p → Q p)
      → (slot : Slot t) → UsedIf P slot
      → UsedIf Q slot
  UsedIf-map P Q f (true, some p) h = f p h
  UsedIf-map P Q f (true, none) h = tt
  UsedIf-map P Q f (false, p) h = tt

  fits-key :
      (key : Key) (slot : Slot t) (p : t.Pack)
      → fits t key slot ≡ true
      → slot.1 ≡ some p
      → resource_pack_key t p ≡ key
  unfolding fits
  fits-key key (used, none) p h e = cc
  fits-key key (true, some q) p h e = cc
  fits-key key (false, some q) p h e =
      let same : q ≡ p = ground (arith, e) in
      subst (λ x. resource_pack_key t x ≡ key) same (key_eq_sound (resource_pack_key t q) key h)

  used-entry :
      (Q : t.Pack → Type 0) (pack : Option t.Pack)
      → ((p : t.Pack) → pack ≡ some p → Q p)
      → UsedIf Q (true, pack)
  used-entry Q none f = tt
  used-entry Q (some p) f = f p refl

  -- What using up an entry does.
  pub record Taken (P : t.Pack → Type 0) (key : Key) (slots : List (Slot t)) : Type 1 where
    pub same : packs_in (take_slot t key slots).1 ≡ packs_in slots
    pub key_of : (p : t.Pack) → (take_slot t key slots).0 ≡ some p → resource_pack_key t p ≡ key
    pub used :
        (Q : t.Pack → Type 0)
        → ((p : t.Pack) → P p → Q p)
        → ((p : t.Pack) → (take_slot t key slots).0 ≡ some p → Q p)
        → All (UsedIf Q) (take_slot t key slots).1

  pub take_slot-Taken :
      (P : t.Pack → Type 0) (key : Key) (slots : List (Slot t))
      → All (UsedIf P) slots
      → Taken P key slots
  unfolding take_slot
  take_slot-Taken P key [] h = record { same = refl; key_of = λ p e. cc; used = λ Q f g. tt }
  take_slot-Taken P key (slot ∷ slots) h = elim (Bool-cases (fits t key slot)) [
    | inl taken ↦ record {
      same = rw (taken, take_slot) refl;
      key_of = λ p e. fits-key key slot p taken (rw (taken, take_slot) at e);
      used = λ Q f g.
          rw (taken, take_slot)
            (
              used-entry Q slot.1 (λ p e. g p (rw (taken, take_slot) e)),
              All-map (UsedIf P) (UsedIf Q) (UsedIf-map P Q f) slots h.1,
            );
    }
    | inr passed ↦
        let rest = take_slot-Taken P key slots h.1 in
        record {
          same = rw (passed, take_slot) (ap (λ x. slot.1 ∷ x) rest.same);
          key_of = λ p e. rest.key_of p (rw (passed, take_slot) at e);
          used = λ Q f g.
              rw (passed, take_slot)
                (UsedIf-map P Q f slot h.0, rest.used Q f (λ p e. g p (rw (passed, take_slot) e)));
        }
  ]
