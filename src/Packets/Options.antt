-- ===== src/Packets/Options.antt =====
-- lib/tftp/packets/Options.cpp and Options.ipp, and the option names of TftpOptions.cpp.
pub mod RoundTrip
pub mod Values
use tftp_senior_design.Base.{
  ℕ, zero, suc, Bool, true, false, Option, none, some, List, [], ltb, length, ◌%◌, ◌^◌, ◌||◌, ◌∷◌,
  ◌++◌, if◌then◌else◌,
}
use tftp_senior_design.Text.{text, find_nul, before, after}
use tftp_senior_design.Text.Number.{Conversion, converted, invalid_argument, out_of_range, stoull}
use tftp_senior_design.Helper.{RawData}
use tftp_senior_design.Packets.{
  KnownOption, block_size, timeout, transfer_size, options_end, Result, ok, err,
}
use tftp_senior_design.Packets.OptionMap.{Options, emplace, lookup, erase}

-- `TftpOptions_name`.
unfoldable pub name : KnownOption → List ℕ
name block_size = text "blksize"
name timeout = text "timeout"
name transfer_size = text "tsize"

-- The loop of `Options_options`; `none` means that the fuel ran out.
unfoldable pub decode_loop : ℕ → List ℕ → Options → Option (Result Options)
decode_loop fuel [] options = some (ok options)
decode_loop zero (c ∷ s) options = none
decode_loop (suc fuel) (c ∷ s) options = elim (find_nul (c ∷ s)) [
  | none ↦ some (err options_end)
  | some name_end ↦ elim (find_nul (after name_end (c ∷ s))) [
    | none ↦ some (err options_end)
    | some value_end ↦
        decode_loop fuel (after value_end (after name_end (c ∷ s)))
          (emplace (before name_end (c ∷ s)) (before value_end (after name_end (c ∷ s))) options)
  ]
]

-- `Options_options`. Each round takes a character at least, so the length is fuel enough.
unfoldable pub decode_options : List ℕ → Result Options
decode_options s = elim (decode_loop (length s) s []) [
  | none ↦ err options_end
  | some result ↦ result
]

-- `Options_rawOptions`.
unfoldable pub raw_options : RawData → Options → List ℕ
raw_options raw [] = []
raw_options raw ((k, v) ∷ options) =
    raw.as_raw_data k ++ (0 ∷ (raw.as_raw_data v ++ (0 ∷ raw_options raw options)))

-- The pair that `Options_getOption` returns.
pub record Negotiated : Type 0 where
  pub valid : Bool
  pub value : Option ℕ

abbrev pub failed : Negotiated
failed = record { valid = false; value = none }

-- The conversion of a value, and the check against the range.
unfoldable pub in_range : ℕ → ℕ → ℕ → Conversion → Negotiated
in_range width low high (converted n) =
    if ltb n low || ltb high n
    then failed
    else record { valid = true; value = some (n % 2 ^ width) }
in_range width low high invalid_argument = failed
in_range width low high out_of_range = failed

unfoldable pub decode_value : ℕ → ℕ → ℕ → List ℕ → Negotiated
decode_value width low high [] = failed
decode_value width low high (c ∷ s) = in_range width low high (stoull (c ∷ s))

-- `Options_getOption< IntT >`, where `width` is the number of bits of `IntT`: the result, and the
-- options without the one extracted.
unfoldable pub get_option : ℕ → ℕ → ℕ → List ℕ → Options → Negotiated × Options
get_option width low high key options = elim (lookup key options) [
  | none ↦ (record { valid = true; value = none }, options)
  | some found ↦ (decode_value width low high found, erase key options)
]
