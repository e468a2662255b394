-- ===== src/Coordinator/Double.antt =====
-- What src/utils/coordinator does with `double`. The operations are IEEE arithmetic, which the model
-- leaves abstract; `floor` and `ceil` are those functions with the conversion to `int`.
use tpst.Prelude.{Bool, ℤ}

pub record Double {ℓ} (W : Type ℓ) : Type ℓ where
  pub of_int : ℤ → W
  pub add : W → W → W
  pub sub : W → W → W
  pub mul : W → W → W
  pub div : W → W → W
  pub gt : W → W → Bool
  pub floor : W → ℤ
  pub ceil : W → ℤ
