-- ===== src/Prelude/Dicts.antt =====
-- A Python dict with number keys, in insertion order. Codes and identifiers, which the program
-- only compares, are numbers in the model.
use auto_trading.Prelude.Tests.{◌==◌, if◌then◌else◌}
use Prim.Native.Nat.{ℕ}
use mathlib.Core.Path.{◌≡◌, refl}
use mathlib.Core.Logic.{◌≢◌}
use mathlib.Core.Bool.{Bool, true, false}
use mathlib.Core.Option.{Option, none, some}
use mathlib.Core.List.{List, [], ◌∷◌, map}
use native.Mathlib.Omega.{arith}

abbrev pub Dict {ℓ} : Type ℓ → Type ℓ
Dict V = List (ℕ × V)

module _ {ℓ} {V : Type ℓ} where
  -- `d.get(k)`
  abbrev pub get : ℕ → Dict V → Option V
  get k [] = none
  get k (e ∷ d) = if e.0 == k then some e.1 else get k d

  -- `k in d`
  abbrev pub has : ℕ → Dict V → Bool
  has k d = elim (get k d) [ none ↦ false | some _ ↦ true ]

  -- `d[k] = v`
  abbrev pub put : ℕ → V → Dict V → Dict V
  put k v [] = (k, v) ∷ []
  put k v (e ∷ d) = if e.0 == k then (e.0, v) ∷ d else e ∷ put k v d

  -- `d.pop(k, None)`: a dict has each key once, so that dropping all its entries is the same.
  abbrev pub pop : ℕ → Dict V → Dict V
  pop k [] = []
  pop k (e ∷ d) = if e.0 == k then pop k d else e ∷ pop k d

  abbrev pub keys : Dict V → List ℕ
  keys d = map (λ e. e.0) d

  abbrev pub values : Dict V → List V
  values d = map (λ e. e.1) d

  pub get-put :
      (j k : ℕ) (v : V) (d : Dict V) → get j (put k v d) ≡ (if k == j then some v else get j d)
  get-put j k v [] = ground arith
  get-put j k v (e ∷ d) = ground (arith, get-put j k v d)

  pub get-pop : (j k : ℕ) (d : Dict V) → get j (pop k d) ≡ (if k == j then none else get j d)
  get-pop j k [] = ground arith
  get-pop j k (e ∷ d) = ground (arith, get-pop j k d)

  pub get-put_self : (k : ℕ) (v : V) (d : Dict V) → get k (put k v d) ≡ some v
  get-put_self k v [] = ground arith
  get-put_self k v (e ∷ d) = ground (arith, get-put_self k v d)

  pub get-put_ne : (j k : ℕ) (v : V) (d : Dict V) → j ≢ k → get j (put k v d) ≡ get j d
  get-put_ne j k v [] h = ground arith
  get-put_ne j k v (e ∷ d) h = ground (arith, get-put_ne j k v d h)

  pub get-pop_self : (k : ℕ) (d : Dict V) → get k (pop k d) ≡ none
  get-pop_self k [] = refl
  get-pop_self k (e ∷ d) = ground (arith, get-pop_self k d)

  pub get-pop_ne : (j k : ℕ) (d : Dict V) → j ≢ k → get j (pop k d) ≡ get j d
  get-pop_ne j k [] h = refl
  get-pop_ne j k (e ∷ d) h = ground (arith, get-pop_ne j k d h)

  -- A predicate on all values.
  abbrev pub Values {κ} : (V → Type κ) → Dict V → Type κ
  Values P [] = Unit
  Values P (e ∷ d) = P e.1 × Values P d

  pub Values-put {κ} :
      (P : V → Type κ) (k : ℕ) (v : V) (d : Dict V) → P v → Values P d → Values P (put k v d)
  Values-put P k v [] p h = (p, tt)
  Values-put P k v (e ∷ d) p h = ground (arith, Values-put P k v d p h.1)

  pub Values-pop {κ} : (P : V → Type κ) (k : ℕ) (d : Dict V) → Values P d → Values P (pop k d)
  Values-pop P k [] h = h
  Values-pop P k (e ∷ d) h = ground (arith, Values-pop P k d h.1)

  pub Values-get {κ} :
      (P : V → Type κ) (k : ℕ) (v : V) (d : Dict V) → Values P d → get k d ≡ some v → P v
  Values-get P k v [] h e = cc
  Values-get P k v (x ∷ d) h e = ground (arith, Values-get P k v d h.1)
