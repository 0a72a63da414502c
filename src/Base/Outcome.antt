-- ===== src/Base/Outcome.antt =====
-- `Result` of the standard library.

pub data Result {ℓ κ} (A : Type ℓ) (X : Type κ) : Type (ℓ ⊔ κ) where
  ok : A → Result A X
  err : X → Result A X
