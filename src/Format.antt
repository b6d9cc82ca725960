-- ===== src/Format.antt =====
-- Texts that an f-string puts together, as the pieces that it joins: texts, whole numbers, references
-- and quotients printed with some decimals.
use ai_revenue_recovery_agen.Prelude.{ℕ, String, List, [], ◌∷◌}

-- A reference such as RC-000123: its prefix and its number.
pub record Ref : Type 0 where
  pub prefix : String
  pub value : ℕ

pub data Piece : Type 0 where
  text : String → Piece
  num : ℕ → Piece
  decimal : ℕ → ℕ → ℕ → Piece
  ref : Ref → Piece

abbrev pub Reason : Type 0
Reason = List Piece

abbrev pub plain : String → Reason
plain t = text t ∷ []
