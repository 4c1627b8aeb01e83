-- ===== src/Parser.antt =====
-- www/manager6/Parser.js: parsers and printers for configuration values that are complex strings.
-- Each child models one pair of functions; here is the loop that they share.
pub mod Reads
pub mod Options
pub mod Drive
pub mod Startup
pub mod IpConfig
pub mod LxcNetwork
pub mod MountPoint
pub mod Cpu
pub mod Smbios
pub mod Tfa
pub mod Acme
pub mod PropertyString
pub mod QemuNetwork
use mathlib.Core.Path.{subst}
use pve_manager_electrified.Prelude.{
  Option, none, some, List, [], ◌∷◌, ◌++◌, ◌≡◌, inl, inr, Option-cases, All,
}
use pve_manager_electrified.Text.{Text}

-- `key + '=' + value`
abbrev pub render : Text × Text → Text
render e = e.0 ++ b'=' ∷ e.1

module _ {ℓ} {S : Type ℓ} where
  -- `value.split(',').forEach(…)` and `Ext.Array.each(value.split(','), …)`: the callback changes
  -- the result object, or ends the parse (`none`) by a throw or by `errors = true; return false`.
  unfoldable pub each : (S → Text → Option S) → S → List Text → Option S
  each step s [] = some s
  each step s (p ∷ ps) = elim (step s p) [ none ↦ none | some s' ↦ each step s' ps ]

  pub each_step :
      (step : S → Text → Option S) (s : S) (p : Text) (ps : List Text) {s' : S}
      → step s p ≡ some s'
      → each step s (p ∷ ps) ≡ each step s' ps
  unfolding each
  each_step step s p ps e = rw (e, each)

  pub each_one :
      (step : S → Text → Option S) (s : S) (p : Text) {s' : S}
      → step s p ≡ some s'
      → each step s (p ∷ []) ≡ some s'
  unfolding each
  each_one step s p e = rw (e, each)

  -- What every call of the callback keeps, over parts that all meet `Q`, holds of the result.
  pub each_inv {κ μ} :
      (P : S → Type κ) (Q : Text → Type μ) (step : S → Text → Option S)
      → ((s : S) (p : Text) (s' : S) → P s → Q p → step s p ≡ some s' → P s')
      → (s : S) (ps : List Text) (s' : S) → P s
      → All Q ps
      → each step s ps ≡ some s'
      → P s'
  unfolding each
  each_inv P Q step keep s [] s' h _ e = let q : s ≡ s' = cc in subst P q h
  each_inv P Q step keep s (p ∷ ps) s' h (hp, hps) e = elim (Option-cases (step s p)) [
    | inl q ↦ cc
    | inr (t, q) ↦ each_inv P Q step keep t ps s' (keep s p t h hp q) hps (rw (q, each) at e)
  ]

  pub each_concat :
      (step : S → Text → Option S) (s : S) (ps : List Text) (p : Text) {t u : S}
      → each step s ps ≡ some t
      → step t p ≡ some u
      → each step s (ps ++ p ∷ []) ≡ some u
  unfolding each
  each_concat step s [] p {t} {u} e h = let q : s ≡ t = cc in rw q (rw (h, each))
  each_concat step s (q ∷ ps) p e h = elim (Option-cases (step s q)) [
    | inl bad ↦ let q = rw (bad, each) at e in cc
    | inr (s', good) ↦ rw (good, each) (each_concat step s' ps p (rw (good, each) at e) h)
  ]
