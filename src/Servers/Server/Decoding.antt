-- ===== src/Servers/Server/Decoding.antt =====
-- lib/tftp/servers/implementation/ServerImpl.cpp, tftpOptions: the options of a request are split into
-- the known ones, decoded, and the others.
use tftp_senior_design.Base.{
  ℕ, refl, sym, ap, inl, inr, none, List, [], arith, Option-cases, length, ◌-◌, ◌≡◌, ◌∙◌, ◌≢◌, ◌∷◌,
}
use tftp_senior_design.Text.{text}
use tftp_senior_design.Text.Number.{u64_mod}
use tftp_senior_design.Packets.{
  block_size, timeout, transfer_size, block_size_option_min, block_size_option_max,
  timeout_option_min, timeout_option_max,
}
use tftp_senior_design.Packets.OptionMap
use tftp_senior_design.Packets.OptionMap.{Options, lookup, erase, IsSorted}
use tftp_senior_design.Packets.Options.{name, get_option, Negotiated}
use tftp_senior_design.Packets.Options.Values.{get_option_rest}
use tftp_senior_design.Packets.TftpOptions.{TftpOptions}
use tftp_senior_design.Servers.Server.{tftp_options}

-- An extraction depends on what the map has under the key.
get_option-lookup :
    (width low high : ℕ) (key : List ℕ) (l m : Options)
    → lookup key l ≡ lookup key m
    → (get_option width low high key l).0 ≡ (get_option width low high key m).0
unfolding get_option
get_option-lookup width low high key l m e = elim (Option-cases (lookup key m)) [
  | inl n ↦ rw (e, n, get_option) refl
  | inr (v, n) ↦ rw (e, n, get_option) refl
]

-- What an extraction and the erasure after it leave: every key but one as before.
record IsWithout (key : List ℕ) (m rest : Options) : Type 0 where
  sorted : IsSorted rest
  gone : lookup key rest ≡ none
  others : (i : List ℕ) → i ≢ key → lookup i rest ≡ lookup i m

extract_lem :
    (width low high : ℕ) (key : List ℕ) (m : Options)
    → IsSorted m
    → IsWithout key m (erase key (get_option width low high key m).1)
extract_lem width low high key m s =
    let (sorted, gone, same) = get_option_rest width low high key m s in
    let left = (get_option width low high key m).1 in
    record {
      sorted = OptionMap.erase-IsSorted key left sorted;
      gone = OptionMap.lookup-erase_self key left sorted;
      others = λ i d. OptionMap.lookup-erase_ne i key left d ∙ same i d;
    }

abbrev first : List ℕ → ℕ
first [] = 0
first (c ∷ l) = c

block_size-timeout : name block_size ≢ name timeout
unfolding name text
block_size-timeout e = omega (arith, ap first e)

block_size-transfer_size : name block_size ≢ name transfer_size
unfolding name text
block_size-transfer_size e = omega (arith, ap first e)

timeout-transfer_size : name timeout ≢ name transfer_size
unfolding name text
timeout-transfer_size e = omega (arith, ap length e)

-- How the options `m` of a request are split.
pub record IsSplit (m : Options) (known : TftpOptions) (rest : Options) : Type 0 where
  pub decoded_block_size :
      known.client_block_size
      ≡ (get_option 16 block_size_option_min block_size_option_max (name block_size) m).0.value
  pub decoded_timeout :
      known.client_timeout
      ≡ (get_option 8 timeout_option_min timeout_option_max (name timeout) m).0.value
  pub decoded_transfer_size :
      known.client_transfer_size ≡ (get_option 64 0 (u64_mod - 1) (name transfer_size) m).0.value
  pub sorted_rest : IsSorted rest
  pub no_block_size : lookup (name block_size) rest ≡ none
  pub no_timeout : lookup (name timeout) rest ≡ none
  pub no_transfer_size : lookup (name transfer_size) rest ≡ none
  pub others_kept :
      (i : List ℕ)
      → i ≢ name block_size
      → i ≢ name timeout
      → i ≢ name transfer_size
      → lookup i rest ≡ lookup i m

-- The options of a request are split: each known option is decoded from the request as it was,
-- whatever the order of the extractions, none of the three names is left, and every other option is
-- left as it was.
pub tftp_options_lem : (m : Options) → IsSorted m → IsSplit m (tftp_options m).0 (tftp_options m).1
unfolding tftp_options
tftp_options_lem m s =
    let a = extract_lem 16 block_size_option_min block_size_option_max (name block_size) m s in
    let m1 =
      erase (name block_size)
        (get_option 16 block_size_option_min block_size_option_max (name block_size) m).1 in
    let b = extract_lem 8 timeout_option_min timeout_option_max (name timeout) m1 a.sorted in
    let m2 =
      erase (name timeout)
        (get_option 8 timeout_option_min timeout_option_max (name timeout) m1).1 in
    let c = extract_lem 64 0 (u64_mod - 1) (name transfer_size) m2 b.sorted in
    let to_total =
      b.others (name transfer_size) (λ e. timeout-transfer_size (sym e))
      ∙ a.others (name transfer_size) (λ e. block_size-transfer_size (sym e)) in
    record {
      decoded_block_size = refl;
      decoded_timeout =
          ap (λ (r : Negotiated). r.value)
            (get_option-lookup 8 timeout_option_min timeout_option_max (name timeout) m1 m
              (a.others (name timeout) (λ e. block_size-timeout (sym e))));
      decoded_transfer_size =
          ap (λ (r : Negotiated). r.value)
            (get_option-lookup 64 0 (u64_mod - 1) (name transfer_size) m2 m to_total);
      sorted_rest = c.sorted;
      no_block_size =
          c.others (name block_size) block_size-transfer_size
          ∙ b.others (name block_size) block_size-timeout
          ∙ a.gone;
      no_timeout = c.others (name timeout) timeout-transfer_size ∙ b.gone;
      no_transfer_size = c.gone;
      others_kept = λ i d1 d2 d3. c.others i d3 ∙ b.others i d2 ∙ a.others i d1;
    }
