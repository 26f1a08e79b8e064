-- ===== src/Metadata/Fingerprint/Injective.antt =====
-- That the text which common/cpp/public_metadata/fingerprint.cc hashes tells two metadata apart.
use mathlib.Core.Bool.{false≢true}
use vpn_libraries.Prelude.{
  ◌≢◌, ℕ, ◌≡◌, refl, ◌∙◌, ap, Bool, true, [], ◌∷◌, ◌++◌, arith, not, ◌&&◌, ◌==◌,
}
use vpn_libraries.Prelude.Int.{ℤ, pos, eqb_ℤ}
use vpn_libraries.Prelude.Text.{Text}
use vpn_libraries.Provision.Messages.{PublicMetadata}
use vpn_libraries.Metadata.Fingerprint.{str_join, omit_default, fingerprint_input}

abbrev pub has_no_bar : Text → Bool
has_no_bar [] = true
has_no_bar (c ∷ s) = not (c == b'|') && has_no_bar s

abbrev head : Text → ℕ
head [] = 0
head (c ∷ s) = c

abbrev tail : Text → Text
tail [] = []
tail (c ∷ s) = s

-- Up to the first bar two texts agree.
bar_splits :
    (s t u v : Text)
    → has_no_bar s ≡ true
    → has_no_bar t ≡ true
    → s ++ b'|' ∷ u ≡ t ++ b'|' ∷ v
    → (s ≡ t) × (u ≡ v)
bar_splits [] [] u v h k e = (refl, ap tail e)
bar_splits [] (d ∷ t) u v h k e = let x : b'|' ≡ d = ap head e in absurd (false≢true (ground arith))
bar_splits (c ∷ s) [] u v h k e = let x : c ≡ b'|' = ap head e in absurd (false≢true (ground arith))
bar_splits (c ∷ s) (d ∷ t) u v h k e =
    let x : c ≡ d = ap head e in
    let r = bar_splits s t u v (ground arith) (ground arith) (ap tail e) in
    (ap (◌∷ s) x ∙ ap (d ∷◌) r.0, r.1)

-- What the program relies on of absl::StrCat of a number.
pub record NumberTexts (str_cat : ℤ → Text) : Type 0 where
  pub no_bar : (z : ℤ) → has_no_bar (str_cat z) ≡ true
  pub not_empty : (z : ℤ) → str_cat z ≢ []
  pub injective : (y z : ℤ) → str_cat y ≡ str_cat z → y ≡ z

-- The texts of a metadata hold no bar, as the signer has to ensure.
abbrev pub HasNoBar : PublicMetadata → Type 0
HasNoBar m =
    (has_no_bar m.country ≡ true)
    × (has_no_bar m.city_geo_id ≡ true)
    × (has_no_bar m.service_type ≡ true)

eqb_ℤ_lem : (y z : ℤ) → eqb_ℤ y z ≡ true → y ≡ z
eqb_ℤ_lem y z h = ground arith

module _ (str_cat : ℤ → Text) (texts : NumberTexts str_cat) where
  omit_default_no_bar : (z : ℤ) → has_no_bar (omit_default str_cat z) ≡ true
  unfolding omit_default
  omit_default_no_bar z = ground (arith, texts.no_bar z)

  omit_default_injective : (y z : ℤ) → omit_default str_cat y ≡ omit_default str_cat z → y ≡ z
  unfolding omit_default
  omit_default_injective y z e = ground (
    arith,
    texts.injective y z,
    texts.not_empty y,
    texts.not_empty z,
    eqb_ℤ_lem y (pos 0),
    eqb_ℤ_lem z (pos 0),
  )

  -- Two metadata whose texts hold no bar are hashed from the same text only where they agree in every
  -- field.
  pub fingerprint_input_injective :
      (m n : PublicMetadata)
      → HasNoBar m
      → HasNoBar n
      → fingerprint_input str_cat m ≡ fingerprint_input str_cat n
      → (m.country ≡ n.country)
        × (m.city_geo_id ≡ n.city_geo_id)
        × (m.service_type ≡ n.service_type)
        × (m.expiration ≡ n.expiration)
        × (m.debug_mode ≡ n.debug_mode)
  unfolding fingerprint_input str_join
  fingerprint_input_injective m n h k e =
      let a = bar_splits m.country n.country _ _ h.0 k.0 e in
      let b = bar_splits m.city_geo_id n.city_geo_id _ _ h.1 k.1 a.1 in
      let c = bar_splits m.service_type n.service_type _ _ h.2 k.2 b.1 in
      let d =
        bar_splits (omit_default str_cat m.expiration.seconds)
          (omit_default str_cat n.expiration.seconds) _ _ (omit_default_no_bar m.expiration.seconds)
          (omit_default_no_bar n.expiration.seconds) c.1 in
      let f =
        bar_splits (omit_default str_cat m.expiration.nanos)
          (omit_default str_cat n.expiration.nanos) _ _ (omit_default_no_bar m.expiration.nanos)
          (omit_default_no_bar n.expiration.nanos) d.1 in
      let s = omit_default_injective m.expiration.seconds n.expiration.seconds d.0 in
      let t = omit_default_injective m.expiration.nanos n.expiration.nanos f.0 in
      (
        a.0,
        b.0,
        c.0,
        (λ i. record { seconds = s i; nanos = t i }),
        omit_default_injective m.debug_mode n.debug_mode f.1,
      )
