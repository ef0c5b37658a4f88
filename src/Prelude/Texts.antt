-- ===== src/Prelude/Texts.antt =====
-- The test of two texts for being different.
use Prim.Native.String.{String}
use text.Mathlib.Text.{◌==◌ as str_eq}
use text.Mathlib.TextEquality.{eq_iff}
use mathlib.Core.Path.{◌≡◌}
use mathlib.Core.Logic.{◌≢◌, inl, inr}
use mathlib.Core.Bool.{true, not}
use ingestion_lab_loadgen.Prelude.Tests.{Bool-cases}
use native.Mathlib.Omega.{arith}

pub not_equal→differ : (s t : String) → not (str_eq s t) ≡ true → s ≢ t
not_equal→differ s t h = λ e. let same : str_eq s t ≡ true = (eq_iff s t).1 e in ground arith

pub differ→not_equal : (s t : String) → s ≢ t → not (str_eq s t) ≡ true
differ→not_equal s t h = elim (Bool-cases (str_eq s t)) [
  | inl e ↦ absurd (h ((eq_iff s t).0 e))
  | inr e ↦ ground arith
]
