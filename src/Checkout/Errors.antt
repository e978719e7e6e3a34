-- ===== src/Checkout/Errors.antt =====
-- The errors of services/checkout/src/domain.rs.
use parallax_telemetry_playg.Prelude.{ℕ, String, Text, codes, Result}

pub record ApiError : Type 0 where
  pub status : ℕ
  pub code : Text
  pub message : Text

-- `ApiError::new` with literals.
abbrev pub api_error : ℕ → String → String → ApiError
api_error status code message = record {
  status = status;
  code = codes code;
  message = codes message;
}

abbrev pub ApiResult : Type 0 → Type 0
ApiResult A = Result ApiError A
