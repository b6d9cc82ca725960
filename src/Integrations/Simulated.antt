-- ===== src/Integrations/Simulated.antt =====
-- app/integrations/simulated_gateway.py, with the result types of gateway.py. Probabilities are in
-- ten-thousandths.
use ai_revenue_recovery_agen.Prelude.{
  ℕ, ◌+◌, ◌≡◌, Bool, true, false, Option, none, some, List, [], ◌∷◌, String, str_eq, ltb,
  Option-cases, inl, inr, if◌then◌else◌,
}
use package.text.Mathlib.TextPositions.{eq_refl}
use ai_revenue_recovery_agen.Format.{Ref, Reason, text, ref}
use ai_revenue_recovery_agen.Db.Enums.{DiagnosisClass}
use ai_revenue_recovery_agen.Outside.{Env, PaymentLinkResult}
use ai_revenue_recovery_agen.Work.{Simulator}

-- `DEFAULT_PROBABILITIES.get(d, 0.0)`
unfoldable pub default_probability : DiagnosisClass → ℕ
default_probability DiagnosisClass.insufficient_funds = 5500
default_probability DiagnosisClass.network_infra = 8000
default_probability DiagnosisClass.bank_downtime = 7500
default_probability DiagnosisClass.customer_auth_required = 4500
default_probability DiagnosisClass.instrument_invalid = 0
default_probability DiagnosisClass.unknown = 0
default_probability DiagnosisClass.duplicate_self_healed = 0

pub record ChargeResult : Type 0 where
  pub success : Bool
  pub status : String
  pub gateway_ref : Option Reason
  pub error_reason : Option String
  pub simulated : Bool

unfoldable pub roll_of : String → List (String × Bool) → Option Bool
roll_of key [] = none
roll_of key ((k, b) ∷ rolls) = if str_eq k key then some b else roll_of key rolls

module _ (env : Env) where
  draw : String → ℕ → Simulator → Option Bool → Bool × Simulator
  draw key probability s (some b) = (b, s)
  draw key probability s none =
      let b = ltb (env.random s.drawn) probability in
      (b, record s { rolls = (key, b) ∷ s.rolls; drawn = s.drawn + 1 })

  -- `_latent`: one roll for each key, made when the key is first asked for.
  unfoldable pub latent : String → ℕ → Simulator → Bool × Simulator
  unfolding draw
  latent key probability s = draw key probability s (roll_of key s.rolls)

  unfoldable pub retry_charge : String → ℕ → Simulator → ChargeResult × Simulator
  retry_charge payment_id capture_probability s =
      let (will_pay, s') = latent payment_id capture_probability s in
      (
        (if will_pay
            then record {
              success = true;
              status = "captured";
              gateway_ref = some (text "sim_txn_" ∷ text payment_id ∷ []);
              error_reason = none;
              simulated = true;
            }
            else record {
              success = false;
              status = "failed";
              gateway_ref = none;
              error_reason = some "charge_declined";
              simulated = true;
            }),
        s',
      )

  unfoldable pub simulate_link_payment : String → ℕ → Simulator → ChargeResult × Simulator
  simulate_link_payment payment_id probability s =
      let (will_pay, s') = latent payment_id probability s in
      (
        (if will_pay
            then record {
              success = true;
              status = "captured";
              gateway_ref = some (text "sim_plink_" ∷ text payment_id ∷ []);
              error_reason = none;
              simulated = true;
            }
            else record {
              success = false;
              status = "failed";
              gateway_ref = none;
              error_reason = some "link_not_paid";
              simulated = true;
            }),
        s',
      )

  unfoldable pub create_payment_link : Ref → PaymentLinkResult
  create_payment_link reference_id = record {
    success = true;
    link_id = some (text "plink_sim_" ∷ ref reference_id ∷ []);
    short_url = some (text "https://sim.recoup/l/" ∷ ref reference_id ∷ []);
    simulated = true;
    error = none;
  }

  -- Asking twice for one key gives one answer, whatever the probabilities are, and the second time the
  -- simulator stays as it is.
  pub latent_once :
      (key : String) (p q : ℕ) (s : Simulator) → latent key q (latent key p s).1 ≡ latent key p s
  unfolding latent roll_of
  latent_once key p q s = elim (Option-cases (roll_of key s.rolls)) [
    | inl new ↦ rw new (rolled (ltb (env.random s.drawn) p))
    | inr (b, old) ↦ rw (old, old)
  ]
    where
      rolled :
          (b : Bool)
          → let s' = record s { rolls = (key, b) ∷ s.rolls; drawn = s.drawn + 1 } in
            draw key q s' (if str_eq key key then some b else roll_of key s.rolls) ≡ (b, s')
      rolled b = rw (eq_refl key)
