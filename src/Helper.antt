-- ===== src/Helper.antt =====
-- The raw data functions of the helper library (a git submodule, helper/RawData.hpp), which the
-- packets call: a parameter of the development, with what the packets rely on as laws. A byte and
-- a character are numbers below 256; a span and a string are lists of them.
use tftp_senior_design.Base.{
  ℕ, refl, List, [], length, take, drop, ◌+◌, ◌*◌, ◌/◌, ◌%◌, ◌≤◌, ◌<◌, ◌≡◌, ◌∷◌,
}

abbrev pub IsByte : ℕ → Type 0
IsByte b = b < 256

abbrev pub IsU16 : ℕ → Type 0
IsU16 v = v < 65536

-- A write answers the bytes written at the front of the span and the span that remains; a read
-- answers the span that remains and the value.
pub record RawData : Type 0 where
  pub get_int : List ℕ → List ℕ × ℕ
  pub set_int : List ℕ → ℕ → List ℕ × List ℕ
  pub get_string : List ℕ → ℕ → List ℕ × List ℕ
  pub set_string : List ℕ → List ℕ → List ℕ × List ℕ
  pub as_raw_data : List ℕ → List ℕ
  pub get_int_lem :
      (a b : ℕ) (rest : List ℕ) → IsByte a → IsByte b → get_int (a ∷ b ∷ rest) ≡ (rest, a * 256 + b)
  pub set_int_lem :
      (a b v : ℕ) (rest : List ℕ)
      → IsU16 v
      → set_int (a ∷ b ∷ rest) v ≡ ((v / 256) ∷ (v % 256) ∷ [], rest)
  pub get_string_lem :
      (span : List ℕ) (n : ℕ) → n ≤ length span → get_string span n ≡ (drop n span, take n span)
  pub set_string_lem :
      (span text : List ℕ)
      → length text ≤ length span
      → set_string span text ≡ (text, drop (length text) span)
  pub as_raw_data_lem : (text : List ℕ) → as_raw_data text ≡ text

abbrev get_int_be : List ℕ → List ℕ × ℕ
get_int_be [] = ([], 0)
get_int_be (a ∷ []) = ([], a)
get_int_be (a ∷ b ∷ rest) = (rest, a * 256 + b)

-- The functions over network byte order, which meet the laws.
abbrev pub big_endian : RawData
big_endian = record {
  get_int = get_int_be;
  set_int = λ span v. ((v / 256) ∷ (v % 256) ∷ [], drop 2 span);
  get_string = λ span n. (drop n span, take n span);
  set_string = λ span text. (text, drop (length text) span);
  as_raw_data = λ text. text;
  get_int_lem = λ a b rest ha hb. refl;
  set_int_lem = λ a b v rest h. refl;
  get_string_lem = λ span n h. refl;
  set_string_lem = λ span text h. refl;
  as_raw_data_lem = λ text. refl;
}
