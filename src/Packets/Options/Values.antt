-- ===== src/Packets/Options/Values.antt =====
-- What `Options_getOption` accepts.
use tftp_senior_design.Base.{
  ℕ, refl, ap, inl, inr, true, none, some, List, [], arith, Option-cases, ◌%◌, ◌^◌, ◌≤◌, ◌<◌, ◌≡◌,
  ◌∙◌, ◌≢◌, ◌⊎◌, ◌∷◌, ◌++◌,
}
use tftp_senior_design.Text.Number.{
  Conversion, converted, invalid_argument, out_of_range, stoull, to_string, IsEnd, u64_mod,
}
use tftp_senior_design.Text.Number
use tftp_senior_design.Packets.OptionMap.{Options, lookup, erase, IsSorted}
use tftp_senior_design.Packets.OptionMap
use tftp_senior_design.Packets.Options.{in_range, decode_value, get_option}

no_wrap : (n m : ℕ) → n < m → n % m ≡ n
no_wrap n m h = grind arith

in_range_bounds :
    (width low high v : ℕ) (c : Conversion)
    → high < 2 ^ width
    → (in_range width low high c).value ≡ some v
    → ((in_range width low high c).valid ≡ true) × (low ≤ v) × (v ≤ high)
unfolding in_range
in_range_bounds width low high v (converted n) fits h = ground (arith, no_wrap n (2 ^ width))
in_range_bounds width low high v invalid_argument fits h = cc
in_range_bounds width low high v out_of_range fits h = cc

decode_value_bounds :
    (width low high v : ℕ) (s : List ℕ)
    → high < 2 ^ width
    → (decode_value width low high s).value ≡ some v
    → ((decode_value width low high s).valid ≡ true) × (low ≤ v) × (v ≤ high)
unfolding decode_value
decode_value_bounds width low high v [] fits h = cc
decode_value_bounds width low high v (c ∷ s) fits h =
    in_range_bounds width low high v (stoull (c ∷ s)) fits h

-- A value that is extracted lies in the range asked for and is marked valid, if the upper end of
-- the range is a value of the integer type.
pub get_option_bounds :
    (width low high v : ℕ) (key : List ℕ) (options : Options)
    → high < 2 ^ width
    → (get_option width low high key options).0.value ≡ some v
    → ((get_option width low high key options).0.valid ≡ true) × (low ≤ v) × (v ≤ high)
unfolding get_option
get_option_bounds width low high v key options fits = go (Option-cases (lookup key options))
  where
    go :
        (lookup key options ≡ none) ⊎ ((s : List ℕ) × (lookup key options ≡ some s))
        → (get_option width low high key options).0.value ≡ some v
        → ((get_option width low high key options).0.valid ≡ true) × (low ≤ v) × (v ≤ high)
    go (inl e) = rw (e, get_option) (λ h. cc)
    go (inr (s, e)) = rw (e, get_option) (decode_value_bounds width low high v s fits)

-- The options that an extraction leaves of a map are a map without the key, in which every other
-- option is as before.
pub get_option_rest :
    (width low high : ℕ) (key : List ℕ) (options : Options)
    → IsSorted options
    → IsSorted (get_option width low high key options).1
      × (lookup key (get_option width low high key options).1 ≡ none)
      × ((i : List ℕ)
          → i ≢ key
          → lookup i (get_option width low high key options).1 ≡ lookup i options)
unfolding get_option
get_option_rest width low high key options sorted = elim (Option-cases (lookup key options)) [
  | inl e ↦ rw (e, get_option) (sorted, e, λ i d. refl)
  | inr (s, e) ↦
      rw (e, get_option)
        (
          OptionMap.erase-IsSorted key options sorted,
          OptionMap.lookup-erase_self key options sorted,
          λ i d. OptionMap.lookup-erase_ne i key options d,
        )
]

decode_value-to_string :
    (width low high n : ℕ) (s rest : List ℕ)
    → n < u64_mod
    → high < 2 ^ width
    → low ≤ n
    → n ≤ high
    → IsEnd rest
    → s ≡ to_string n ++ rest
    → decode_value width low high s ≡ record { valid = true; value = some n }
unfolding decode_value in_range
decode_value-to_string width low high n [] rest u fits lo hi e q =
    absurd (cc (Number.stoull-to_string n rest u e, ap stoull q, Number.stoull_nil))
decode_value-to_string width low high n (c ∷ s) rest u fits lo hi e q =
    ground (arith, no_wrap n (2 ^ width), ap stoull q ∙ Number.stoull-to_string n rest u e)

-- A number in the range is read from its decimal digits and the option removed, also if the digits
-- are followed by anything that does not start with a digit. The number is below 2 ^ 64, and the
-- upper end of the range is a value of the integer type.
pub get_option-to_string :
    (width low high n : ℕ) (key rest : List ℕ) (options : Options)
    → n < u64_mod
    → high < 2 ^ width
    → low ≤ n
    → n ≤ high
    → IsEnd rest
    → lookup key options ≡ some (to_string n ++ rest)
    → get_option width low high key options
      ≡ (record { valid = true; value = some n }, erase key options)
unfolding get_option
get_option-to_string width low high n key rest options u fits lo hi e h =
    rw (h, get_option)
      (rw (decode_value-to_string width low high n (to_string n ++ rest) rest u fits lo hi e refl))
