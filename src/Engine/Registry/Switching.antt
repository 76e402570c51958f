-- ===== src/Engine/Registry/Switching.antt =====
-- Disabling a strategy, and enabling it again (src/services/strategy_engine.py).
use auto_trading.Prelude.{
  ℕ, ◌≡◌, ◌≢◌, refl, sym, ap, ◌∙◌, true, false, Option, none, some, List, [], ◌∷◌, ◌==◌,
  if◌then◌else◌, Dict, get, put, pop, get-put, get-put_self, get-put_ne, get-pop, get-pop_self, All,
  Bool-cases, Option-cases, inl, inr, arith,
}
use auto_trading.Engine.{StrategyConfig, StrategyEngine}
use auto_trading.Engine.Registry.{
  strategy_not_found, load_each, load_and_initialize_strategies, reload_strategies, enabled_as,
  set_enabled, instance_of, enable_found, enable_strategy, disable_found, disable_strategy,
  get_strategy,
}

module _ {S : Type 0} (create : StrategyConfig → Option S) where
  -- A strategy that is configured and enabled, and of which an instance can be made, is disabled and
  -- enabled again. Both succeed. It is gone in between, and back afterwards as a new instance; each
  -- name's configuration, and each other name's strategy, is as before.
  pub enable_strategy-disable_strategy :
      (name : ℕ) (c : StrategyConfig) (s : S) (e : StrategyEngine S)
      → get name e.strategy_configs ≡ some c
      → c.enabled ≡ true
      → create (enabled_as true c) ≡ some s
      → let (failed, off) = disable_strategy name e in
        let (failed', on) = enable_strategy create name off in
        (failed ≡ none)
        × (failed' ≡ none)
        × (get_strategy name off ≡ none)
        × ((k : ℕ) → get k on.strategy_configs ≡ get k e.strategy_configs)
        × ((k : ℕ) → get_strategy k on ≡ (if name == k then some s else get_strategy k e))
  unfolding disable_strategy enable_strategy
  enable_strategy-disable_strategy name c s e is enabled made =
      rw (disabled, enabled_again)
        (
          refl,
          refl,
          get-pop_self name e.strategies,
          λ k. elim (Bool-cases (name == k)) [
            | inl here ↦
                ground (arith, get-put k name (enabled_as true c) off.strategy_configs, same, is)
            | inr elsewhere ↦ ground (
              arith,
              get-put k name (enabled_as true c) off.strategy_configs,
              get-put k name (enabled_as false c) e.strategy_configs,
            )
          ],
          λ k.
              ground (arith, get-put k name s (pop name e.strategies), get-pop k name e.strategies),
        )
    where
      off : StrategyEngine S
      off = record e {
        strategy_configs = put name (enabled_as false c) e.strategy_configs;
        strategies = pop name e.strategies;
      }

      on : StrategyEngine S
      on = record off {
        strategy_configs = put name (enabled_as true c) off.strategy_configs;
        strategies = put name s off.strategies;
      }

      same : enabled_as true c ≡ c
      same = ap (λ b. enabled_as b c) (sym enabled)

      disabled : disable_strategy name e ≡ (none, off)
      disabled = rw (is, disable_strategy, disable_found, set_enabled) refl

      enabled_again : enable_strategy create name off ≡ (none, on)
      enabled_again =
          rw
            (
              get-put_self name (enabled_as false c) e.strategy_configs,
              enable_strategy,
              enable_found,
              set_enabled,
              get-pop_self name e.strategies,
              instance_of,
              made,
            )
            refl

  -- No enabled entry has this name.
  abbrev pub LeftOut : (name : ℕ) → List StrategyConfig → Type 0
  LeftOut name configs = All (λ c. c.enabled ≡ true → c.strategy_name ≢ name) configs

  load_each-LeftOut :
      (name : ℕ) (configs : List StrategyConfig) (made : Dict S) (e : StrategyEngine S)
      → LeftOut name configs
      → get name e.strategy_configs ≡ none
      → get name (load_each create configs made e).1.strategy_configs ≡ none
  unfolding load_each
  load_each-LeftOut name [] made e out absent = absent
  load_each-LeftOut name (c ∷ configs) made e out absent = elim (Bool-cases c.enabled) [
    | inr off ↦ rw (off, load_each) (load_each-LeftOut name configs made e out.1 absent)
    | inl on ↦ elim (Option-cases (create c)) [
      | inl broken ↦ rw (on, broken, load_each) absent
      | inr (s, is) ↦
          rw (on, is, load_each)
            (load_each-LeftOut name configs (put c.strategy_name s made)
              (record e { strategy_configs = put c.strategy_name c e.strategy_configs }) out.1
              (get-put_ne name c.strategy_name c e.strategy_configs (λ q. out.0 on (sym q))
                ∙ absent))
    ]
  ]

  -- A strategy that the file has as disabled only, or not at all, is not configured after the
  -- strategies are loaded anew. Then enabling it and disabling it both fail, with the error of a
  -- strategy that does not exist, and change nothing.
  pub enable_strategy-LeftOut :
      (name : ℕ) (configs : List StrategyConfig) (e : StrategyEngine S)
      → LeftOut name configs
      → let (_, loaded) = reload_strategies create (some configs) e in
        (enable_strategy create name loaded ≡ (some strategy_not_found, loaded))
        × (disable_strategy name loaded ≡ (some strategy_not_found, loaded))
  unfolding reload_strategies load_and_initialize_strategies enable_strategy disable_strategy
  enable_strategy-LeftOut name configs e out =
      let empty : StrategyEngine S = record e { strategies = []; strategy_configs = [] } in
      let loaded = (load_each create configs [] empty).1 in
      let absent : get name loaded.strategy_configs ≡ none =
        load_each-LeftOut name configs [] empty out refl in
      (
        rw (absent, enable_strategy, enable_found) refl,
        rw (absent, disable_strategy, disable_found) refl,
      )
