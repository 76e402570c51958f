-- ===== src/Strategies/ChartFields.antt =====
-- The validation of a chart's data (src/models/chart_data.py). The fields are validated in the order
-- of the class, each with those that were accepted before it as `info.data`. Which characters are
-- digits (`\d` of pydantic's pattern) is a parameter.
use auto_trading.Prelude.{
  ℕ, ◌≤◌, ◌<◌, ◌≡◌, ◌↔◌, refl, inl, inr, Bool, true, false, ◌&&◌, ◌||◌, Option, none, some, List,
  [], ◌∷◌, length, All, ◌==◌, leb, ltb, if◌then◌else◌, Bool-cases, arith,
}
use auto_trading.Strategies.Charts.{ChartData}

-- The fields that the validators read.
pub data Field : Type 0 where
  open_field high_field low_field close_field : Field

abbrev pub same_field : Field → Field → Bool
same_field open_field open_field = true
same_field high_field high_field = true
same_field low_field low_field = true
same_field close_field close_field = true
same_field _ _ = false

-- `info.data`, and its `get`.
abbrev pub Info : Type 0
Info = List (Field × ℕ)

abbrev pub info_get : Field → Info → Option ℕ
info_get field [] = none
info_get field (e ∷ info) = if same_field e.0 field then some e.1 else info_get field info

-- Not `other and price < other`, and not `other and price > other`.
abbrev pub at_least : ℕ → Option ℕ → Bool
at_least price none = true
at_least price (some other) = leb other price

abbrev pub at_most : ℕ → Option ℕ → Bool
at_most price none = true
at_most price (some other) = other == 0 || leb price other

unfoldable pub validate_high_price : (price : ℕ) → Info → Bool
validate_high_price price info =
    at_least price (info_get open_field info)
    && at_least price (info_get low_field info)
    && at_least price (info_get close_field info)

unfoldable pub validate_low_price : (price : ℕ) → Info → Bool
validate_low_price price info =
    at_most price (info_get open_field info)
    && at_most price (info_get high_field info)
    && at_most price (info_get close_field info)

-- The validator of a field, where it has one.
unfoldable pub validate : Field → (price : ℕ) → Info → Bool
unfolding validate_high_price validate_low_price
validate open_field price info = true
validate high_field price info = validate_high_price price info
validate low_field price info = validate_low_price price info
validate close_field price info = true

-- The data are refused as soon as one field is, whatever the later ones say.
unfoldable pub validate_fields : List (Field × ℕ) → Info → Bool
unfolding validate
validate_fields [] info = true
validate_fields ((field, price) ∷ fields) info =
    (ltb 0 price && validate field price info) && validate_fields fields ((field, price) ∷ info)

-- The prices in the order of the class.
abbrev pub price_fields : ChartData → List (Field × ℕ)
price_fields x =
    (open_field, x.open_price)
    ∷ (high_field, x.high_price)
    ∷ (low_field, x.low_price)
    ∷ (close_field, x.close_price)
    ∷ []

module _ (is_digit : ℕ → Bool) where
  abbrev pub all_digits : List ℕ → Bool
  all_digits [] = true
  all_digits (c ∷ code) = is_digit c && all_digits code

  -- `ChartData(...)`, with the characters of its code: the pattern of the code, and the prices. That
  -- the volume is not negative is in its type.
  unfoldable pub is_accepted : (code : List ℕ) → ChartData → Bool
  unfolding validate_fields
  is_accepted code x = (length code == 6) && all_digits code && validate_fields (price_fields x) []

  all_digits_iff : (code : List ℕ) → (all_digits code ≡ true) ↔ All (λ c. is_digit c ≡ true) code
  all_digits_iff [] = (λ h. tt, λ h. refl)
  all_digits_iff (c ∷ code) =
      let (there, back) = all_digits_iff code in
      elim (Bool-cases (is_digit c)) [
        | inl digit ↦ (λ h. (digit, there (rw digit at h)), λ (h, k). rw digit (back k))
        | inr other ↦ (λ h. absurd (cc (rw other at h)), λ (h, k). absurd (cc))
      ]

  -- The prices pass exactly where all four are above zero and the open price lies between the low and
  -- the high price.
  prices_iff :
      (x : ChartData)
      → (validate_fields (price_fields x) [] ≡ true) ↔ (
          (0 < x.low_price)
          × (x.low_price ≤ x.open_price)
          × (x.open_price ≤ x.high_price)
          × (0 < x.close_price))
  unfolding validate_fields validate validate_high_price validate_low_price
  prices_iff x = (λ h. ground (arith, h), λ h. ground (arith, h))

  -- A chart's data, with a volume that is not negative, are accepted exactly where the code has six
  -- characters, all digits, all four prices are above zero, and the open price lies between the low
  -- and the high price. The close price need not: at each comparison with it, it is not yet among the
  -- fields that the validator sees.
  pub is_accepted_iff :
      (code : List ℕ) (x : ChartData)
      → (is_accepted code x ≡ true) ↔ (
          (length code ≡ 6)
          × All (λ c. is_digit c ≡ true) code
          × (0 < x.low_price)
          × (x.low_price ≤ x.open_price)
          × (x.open_price ≤ x.high_price)
          × (0 < x.close_price))
  unfolding is_accepted
  is_accepted_iff code x =
      let (digits, digits') = all_digits_iff code in
      let (prices, prices') = prices_iff x in
      (
        λ h.
            let (a, b, c, d) = prices (ground (arith, h)) in
            (ground (arith, h), digits (ground (arith, h)), a, b, c, d),
        λ (six, k, a, b, c, d). ground (arith, six, digits' k, prices' (a, b, c, d)),
      )
