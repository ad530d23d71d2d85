-- ===== src/Base/Results.antt =====
-- `Result<A, E>`, and the binds of `?` on results and options.

pub data Result {ℓ κ} (A : Type ℓ) (E : Type κ) : Type (ℓ ⊔ κ) where
  ok : A → Result A E
  err : E → Result A E
