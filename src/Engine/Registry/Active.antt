-- ===== src/Engine/Registry/Active.antt =====
-- A strategy that is active is configured and enabled (src/services/strategy_engine.py).
use auto_trading.Prelude.{
  ℕ, ◌≡◌, refl, true, false, Option, none, some, List, [], ◌∷◌, ◌==◌, Dict, get, put, get-put,
  get-put_self, get-pop, Option-cases, Bool-cases, inl, inr, arith,
}
use auto_trading.Engine.{StrategyConfig, StrategyEngine}
use auto_trading.Engine.Registry.{
  load_each, load_and_initialize_strategies, reload_strategies, enabled_as, set_enabled,
  instance_of, enable_found, enable_strategy, disable_found, disable_strategy,
}

abbrev pub Backed : {S : Type 0} → Dict S → Dict StrategyConfig → Type 0
Backed {S = S} strategies configs =
    (name : ℕ) (s : S)
    → get name strategies ≡ some s
    → (c : StrategyConfig) × (get name configs ≡ some c) × (c.enabled ≡ true)

-- Each active strategy has its configuration, and is enabled there.
abbrev pub IsBacked : {S : Type 0} → StrategyEngine S → Type 0
IsBacked e = Backed e.strategies e.strategy_configs

-- An operation on the strategies; a file is given by what it holds.
pub data Operation : Type 0 where
  load reload : Option (List StrategyConfig) → Operation
  enable disable : ℕ → Operation

module _ {S : Type 0} (create : StrategyConfig → Option S) where
  -- A configuration that is enabled, put under its name, backs what was backed.
  Backed-configured :
      (strategies : Dict S) (configs : Dict StrategyConfig) (name : ℕ) (c : StrategyConfig)
      → c.enabled ≡ true
      → Backed strategies configs
      → Backed strategies (put name c configs)
  Backed-configured strategies configs name c on h k s e =
      let (d, found, enabled) = h k s e in
      elim (Bool-cases (name == k)) [
        | inl here ↦ (c, ground (arith, get-put k name c configs), on)
        | inr elsewhere ↦ (d, ground (arith, get-put k name c configs, found), enabled)
      ]

  Backed-put :
      (strategies : Dict S) (configs : Dict StrategyConfig) (name : ℕ) (c : StrategyConfig) (s : S)
      → c.enabled ≡ true
      → Backed strategies configs
      → Backed (put name s strategies) (put name c configs)
  Backed-put strategies configs name c s on h k t e = elim (Bool-cases (name == k)) [
    | inl here ↦ (c, ground (arith, get-put k name c configs), on)
    | inr elsewhere ↦
        Backed-configured strategies configs name c on h k t
          (ground (arith, get-put k name s strategies))
  ]

  load_each-IsBacked :
      (configs : List StrategyConfig) (made : Dict S) (e : StrategyEngine S)
      → Backed made e.strategy_configs
      → IsBacked e
      → IsBacked (load_each create configs made e).1
  unfolding load_each
  load_each-IsBacked [] made e new old = new
  load_each-IsBacked (c ∷ configs) made e new old = elim (Bool-cases c.enabled) [
    | inr off ↦ rw (off, load_each) (load_each-IsBacked configs made e new old)
    | inl on ↦ elim (Option-cases (create c)) [
      | inl broken ↦ rw (on, broken, load_each) old
      | inr (s, is) ↦
          rw (on, is, load_each)
            (load_each-IsBacked configs (put c.strategy_name s made)
              (record e { strategy_configs = put c.strategy_name c e.strategy_configs })
              (Backed-put made e.strategy_configs c.strategy_name c s on new)
              (Backed-configured e.strategies e.strategy_configs c.strategy_name c on old))
    ]
  ]

  instance_of-IsBacked :
      (found : Option S) (name : ℕ) (c : StrategyConfig) (e : StrategyEngine S)
      → get name e.strategy_configs ≡ some c
      → c.enabled ≡ true
      → IsBacked e
      → IsBacked (instance_of create found name c e).1
  unfolding instance_of
  instance_of-IsBacked (some s) name c e is on h = h
  instance_of-IsBacked none name c e is on h = elim (Option-cases (create c)) [
    | inl broken ↦ rw (broken, instance_of) h
    | inr (s, made) ↦
        rw (made, instance_of)
          (λ k t at. elim (Bool-cases (name == k)) [
            | inl here ↦ (c, ground (arith, is), on)
            | inr elsewhere ↦ h k t (ground (arith, get-put k name s e.strategies))
          ])
  ]

  enable_found-IsBacked :
      (found : Option StrategyConfig) (name : ℕ) (e : StrategyEngine S)
      → IsBacked e
      → IsBacked (enable_found create found name e).1
  unfolding enable_found set_enabled
  enable_found-IsBacked none name e h = h
  enable_found-IsBacked (some c) name e h =
      instance_of-IsBacked (get name e.strategies) name (enabled_as true c)
        (set_enabled true name c e) (get-put_self name (enabled_as true c) e.strategy_configs) refl
        (Backed-configured e.strategies e.strategy_configs name (enabled_as true c) refl h)

  disable_found-IsBacked :
      (found : Option StrategyConfig) (name : ℕ) (e : StrategyEngine S)
      → IsBacked e
      → IsBacked (disable_found found name e).1
  unfolding disable_found set_enabled
  disable_found-IsBacked none name e h k s at = h k s at
  disable_found-IsBacked (some c) name e h k s at =
      let apart : (name == k) ≡ false = ground (arith, get-pop k name e.strategies) in
      let (d, found, on) = h k s (ground (arith, get-pop k name e.strategies)) in
      (d, ground (arith, get-put k name (enabled_as false c) e.strategy_configs), on)

  unfoldable pub operate : Operation → StrategyEngine S → StrategyEngine S
  operate (load file) e = (load_and_initialize_strategies create file e).1
  operate (reload file) e = (reload_strategies create file e).1
  operate (enable name) e = (enable_strategy create name e).1
  operate (disable name) e = (disable_strategy name e).1

  load-IsBacked :
      (file : Option (List StrategyConfig)) (e : StrategyEngine S)
      → IsBacked e
      → IsBacked (load_and_initialize_strategies create file e).1
  unfolding load_and_initialize_strategies
  load-IsBacked none e h = h
  load-IsBacked (some configs) e h =
      load_each-IsBacked configs [] e (λ k s at. absurd (ground arith)) h

  operate-IsBacked : (o : Operation) (e : StrategyEngine S) → IsBacked e → IsBacked (operate o e)
  unfolding operate reload_strategies enable_strategy disable_strategy
  operate-IsBacked (load file) e h = load-IsBacked file e h
  operate-IsBacked (reload file) e h =
      load-IsBacked file (record e { strategies = []; strategy_configs = [] })
        (λ k s at. absurd (ground arith))
  operate-IsBacked (enable name) e h = enable_found-IsBacked (get name e.strategy_configs) name e h
  operate-IsBacked (disable name) e h =
      disable_found-IsBacked (get name e.strategy_configs) name e h

  unfoldable pub run_operations : List Operation → StrategyEngine S → StrategyEngine S
  unfolding operate
  run_operations [] e = e
  run_operations (o ∷ operations) e = run_operations operations (operate o e)

  -- Whatever is loaded, reloaded, enabled and disabled, and whichever of these fails on the way, an
  -- engine whose active strategies are all configured and enabled stays so. So no evaluation of an
  -- active strategy misses its configuration.
  pub run_operations-IsBacked :
      (operations : List Operation) (e : StrategyEngine S)
      → IsBacked e
      → IsBacked (run_operations operations e)
  unfolding run_operations
  run_operations-IsBacked [] e h = h
  run_operations-IsBacked (o ∷ operations) e h =
      run_operations-IsBacked operations (operate o e) (operate-IsBacked o e h)
