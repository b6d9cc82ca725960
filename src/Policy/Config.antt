-- ===== src/Policy/Config.antt =====
-- app/policy/config.py: the thresholds. Amounts are in paise, confidences in ten-thousandths.
use ai_revenue_recovery_agen.Prelude.{ℕ, ◌≡◌, refl, Option, none, some, get_or}

pub record PolicyConfig : Type 0 where
  pub max_retries : ℕ
  pub approval_limit_minor : ℕ
  pub cooldown_base_min : ℕ
  pub confidence_floor : ℕ
  pub contact_cap_7d : ℕ
  pub ttl_hours : ℕ
  pub simulation_budget : ℕ

-- `PolicyConfig()`, and `DEFAULT_POLICY_CONFIG`, which has the same values.
abbrev pub default_policy_config : PolicyConfig
default_policy_config = record {
  max_retries = 3;
  approval_limit_minor = 2500000;
  cooldown_base_min = 30;
  confidence_floor = 6000;
  contact_cap_7d = 3;
  ttl_hours = 72;
  simulation_budget = 200;
}

-- The dict of a merchant's overrides: a key that is absent is `none`.
pub record Overrides : Type 0 where
  pub max_retries : Option ℕ
  pub approval_limit_minor : Option ℕ
  pub cooldown_base_min : Option ℕ
  pub confidence_floor : Option ℕ
  pub contact_cap_7d : Option ℕ
  pub ttl_hours : Option ℕ
  pub simulation_budget : Option ℕ

abbrev pub no_overrides : Overrides
no_overrides = record {
  max_retries = none;
  approval_limit_minor = none;
  cooldown_base_min = none;
  confidence_floor = none;
  contact_cap_7d = none;
  ttl_hours = none;
  simulation_budget = none;
}

unfoldable pub from_dict : Option Overrides → PolicyConfig
from_dict d =
    let o = get_or d no_overrides in
    let base = default_policy_config in
    record {
      max_retries = get_or o.max_retries base.max_retries;
      approval_limit_minor = get_or o.approval_limit_minor base.approval_limit_minor;
      cooldown_base_min = get_or o.cooldown_base_min base.cooldown_base_min;
      confidence_floor = get_or o.confidence_floor base.confidence_floor;
      contact_cap_7d = get_or o.contact_cap_7d base.contact_cap_7d;
      ttl_hours = get_or o.ttl_hours base.ttl_hours;
      simulation_budget = get_or o.simulation_budget base.simulation_budget;
    }

unfoldable pub to_dict : PolicyConfig → Overrides
to_dict c = record {
  max_retries = some c.max_retries;
  approval_limit_minor = some c.approval_limit_minor;
  cooldown_base_min = some c.cooldown_base_min;
  confidence_floor = some c.confidence_floor;
  contact_cap_7d = some c.contact_cap_7d;
  ttl_hours = some c.ttl_hours;
  simulation_budget = some c.simulation_budget;
}

-- Reading the snapshot that `to_dict` writes gives the configuration back, and reading no overrides,
-- or an empty dict, gives the default configuration.
from_dict-to_dict :
    (c : PolicyConfig)
    → (from_dict (some (to_dict c)) ≡ c)
      × (from_dict none ≡ default_policy_config)
      × (from_dict (some no_overrides) ≡ default_policy_config)
unfolding from_dict to_dict
from_dict-to_dict c = (refl, refl, refl)
