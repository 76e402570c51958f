-- ===== src/Engine/Registry.antt =====
-- How strategies are loaded, enabled and disabled (src/services/strategy_engine.py). The import of
-- a class and the making of an instance are a parameter, with `none` where either raises; so is
-- what the configuration file holds.
pub mod Active
pub mod Switching
use auto_trading.Prelude.{
  ℕ, Bool, true, false, Option, none, some, List, [], ◌∷◌, ◌==◌, Dict, get, put, pop, keys,
}
use auto_trading.Engine.{StrategyConfig, StrategyEngine}

pub data LoadError : Type 0 where
  file_unreadable strategy_not_found not_created : LoadError

abbrev pub enabled_as : Bool → StrategyConfig → StrategyConfig
enabled_as b c = record c { enabled = b }

module _ {S : Type 0} where
  abbrev pub get_strategy : (name : ℕ) → StrategyEngine S → Option S
  get_strategy name e = get name e.strategies

  unfoldable pub set_enabled :
      Bool → (name : ℕ) → StrategyConfig → StrategyEngine S → StrategyEngine S
  set_enabled b name c e = record e {
    strategy_configs = put name (enabled_as b c) e.strategy_configs;
  }

  unfoldable pub disable_found :
      Option StrategyConfig → (name : ℕ) → StrategyEngine S → Option LoadError × StrategyEngine S
  unfolding set_enabled
  disable_found none name e = (some strategy_not_found, e)
  disable_found (some c) name e =
      let e' = set_enabled false name c e in
      (none, record e' { strategies = pop name e'.strategies })

  unfoldable pub disable_strategy :
      (name : ℕ) → StrategyEngine S → Option LoadError × StrategyEngine S
  unfolding disable_found
  disable_strategy name e = disable_found (get name e.strategy_configs) name e

  abbrev pub get_active_strategies : StrategyEngine S → List ℕ
  get_active_strategies e = keys e.strategies

module _ {S : Type 0} (create : StrategyConfig → Option S) where
  -- The loop of `load_and_initialize_strategies`, with the instances that it has made.
  unfoldable pub load_each :
      List StrategyConfig → (made : Dict S) → StrategyEngine S → Option LoadError × StrategyEngine S
  load_each [] made e = (none, record e { strategies = made })
  load_each (c ∷ configs) made e = elim c.enabled [
    | false ↦ load_each configs made e
    | true ↦ elim (create c) [
      | none ↦ (some not_created, e)
      | some s ↦
          load_each configs (put c.strategy_name s made)
            (record e { strategy_configs = put c.strategy_name c e.strategy_configs })
    ]
  ]

  unfoldable pub load_and_initialize_strategies :
      (file : Option (List StrategyConfig)) → StrategyEngine S → Option LoadError × StrategyEngine S
  unfolding load_each
  load_and_initialize_strategies none e = (some file_unreadable, e)
  load_and_initialize_strategies (some configs) e = load_each configs [] e

  unfoldable pub reload_strategies :
      (file : Option (List StrategyConfig)) → StrategyEngine S → Option LoadError × StrategyEngine S
  unfolding load_and_initialize_strategies
  reload_strategies file e =
      load_and_initialize_strategies file (record e { strategies = []; strategy_configs = [] })

  unfoldable pub instance_of :
      Option S
      → (name : ℕ) → StrategyConfig
      → StrategyEngine S
      → Option LoadError × StrategyEngine S
  instance_of (some s) name c e = (none, e)
  instance_of none name c e = elim (create c) [
    | none ↦ (some not_created, e)
    | some s ↦ (none, record e { strategies = put name s e.strategies })
  ]

  unfoldable pub enable_found :
      Option StrategyConfig → (name : ℕ) → StrategyEngine S → Option LoadError × StrategyEngine S
  unfolding set_enabled instance_of
  enable_found none name e = (some strategy_not_found, e)
  enable_found (some c) name e =
      instance_of (get_strategy name e) name (enabled_as true c) (set_enabled true name c e)

  unfoldable pub enable_strategy :
      (name : ℕ) → StrategyEngine S → Option LoadError × StrategyEngine S
  unfolding enable_found
  enable_strategy name e = enable_found (get name e.strategy_configs) name e
