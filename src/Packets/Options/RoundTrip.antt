-- ===== src/Packets/Options/RoundTrip.antt =====
-- Options written to a packet and read back.
use tftp_senior_design.Base.{
  ℕ, zero, suc, refl, ap, inl, inr, some, List, [], append-nil, append_assoc, arith, Option-cases,
  length, All, length-append, length-drop, take-length-append, All-append, ◌≤◌, ◌<◌, ◌≡◌, ◌∙◌, ◌≢◌,
  ◌∷◌, ◌++◌,
}
use tftp_senior_design.Text.{IsNulFree, find_nul, before, after}
use tftp_senior_design.Text
use tftp_senior_design.Helper.{RawData}
use tftp_senior_design.Packets.{options_end, Result, ok, err}
use tftp_senior_design.Packets.ErrorMessage.{back, back-append}
use tftp_senior_design.Packets.OptionMap.{Options, emplace, IsSorted, Below, Above}
use tftp_senior_design.Packets.OptionMap
use tftp_senior_design.Packets.Options.{decode_loop, decode_options, raw_options}

-- No name and no value has the character 0, which ends them in a packet.
abbrev pub AreNulFree : Options → Type 0
AreNulFree m = All (λ p. IsNulFree p.0 × IsNulFree p.1) m

-- One round reads one option.
decode_loop_round :
    (fuel : ℕ) (s : List ℕ) (m : Options) (n j : ℕ)
    → find_nul s ≡ some n
    → find_nul (after n s) ≡ some j
    → decode_loop (suc fuel) s m
      ≡ decode_loop fuel (after j (after n s)) (emplace (before n s) (before j (after n s)) m)
unfolding decode_loop
decode_loop_round fuel [] m n j h g = absurd (omega (arith, Text.find_nul_bound [] n h))
decode_loop_round fuel (c ∷ s) m n j h g = rw (h, g, decode_loop)

decode_loop_step :
    (fuel : ℕ) (k v rest : List ℕ) (m : Options)
    → IsNulFree k
    → IsNulFree v
    → decode_loop (suc fuel) (k ++ (0 ∷ (v ++ (0 ∷ rest)))) m
      ≡ decode_loop fuel rest (emplace k v m)
decode_loop_step fuel k v rest m hk hv =
    let tail = v ++ (0 ∷ rest) in
    let whole = k ++ (0 ∷ tail) in
    let cut : after (length k) whole ≡ tail = Text.after-append k tail in
    let found : find_nul (after (length k) whole) ≡ some (length v) =
      ap find_nul cut ∙ Text.find_nul-append v rest hv in
    decode_loop_round fuel whole m (length k) (length v) (Text.find_nul-append k tail hk) found
    ∙ rw (
      cut,
      Text.after-append v rest,
      take-length-append k (0 ∷ tail),
      take-length-append v (0 ∷ rest),
    )

-- The loop ends within its fuel.
decode_loop_total :
    (fuel : ℕ) (s : List ℕ) (m : Options)
    → length s ≤ fuel
    → (r : Result Options) × (decode_loop fuel s m ≡ some r)
unfolding decode_loop
decode_loop_total fuel [] m h = (ok m, refl)
decode_loop_total zero (c ∷ s) m h = absurd (omega arith)
decode_loop_total (suc fuel) (c ∷ s) m h = elim (Option-cases (find_nul (c ∷ s))) [
  | inl e ↦ (err options_end, rw (e, decode_loop))
  | inr (n, e) ↦ elim (Option-cases (find_nul (after n (c ∷ s)))) [
    | inl g ↦ (err options_end, rw (e, g, decode_loop))
    | inr (j, g) ↦
        let rest = after j (after n (c ∷ s)) in
        let key = before n (c ∷ s) in
        let value = before j (after n (c ∷ s)) in
        let (r, q) =
          decode_loop_total fuel rest (emplace key value m)
            (omega (arith, length-drop (suc n) (c ∷ s), length-drop (suc j) (after n (c ∷ s)))) in
        (r, decode_loop_round fuel (c ∷ s) m n j e g ∙ q)
  ]
]

-- The loop over the options ends within as many rounds as the text has characters, with the result
-- of `decode_options`.
pub decode_options_total : (s : List ℕ) → decode_loop (length s) s [] ≡ some (decode_options s)
unfolding decode_options
decode_options_total s =
    let (r, e) = decode_loop_total (length s) s [] (omega arith) in e ∙ rw (e, decode_options)

module _ (raw : RawData) where
  raw_options_cons :
      (k v : List ℕ) (m : Options)
      → raw_options raw ((k, v) ∷ m) ≡ k ++ (0 ∷ (v ++ (0 ∷ raw_options raw m)))
  unfolding raw_options
  raw_options_cons k v m = rw (raw.as_raw_data_lem k, raw.as_raw_data_lem v)

  pub raw_options_pos : (m : Options) → m ≢ [] → 0 < length (raw_options raw m)
  raw_options_pos [] h = absurd (h refl)
  raw_options_pos ((k, v) ∷ m) h =
      rw (raw_options_cons k v m)
        (omega (arith, length-append k (0 ∷ (v ++ (0 ∷ raw_options raw m)))))

  -- Written options end in 0, also behind one.
  pub raw_options_end : (m : Options) → back (0 ∷ raw_options raw m) ≡ 0
  raw_options_end [] = unfold raw_options back in refl
  raw_options_end ((k, v) ∷ m) = rw (raw_options_cons k v m) (
      back-append (0 ∷ k) 0 (v ++ (0 ∷ raw_options raw m))
      ∙ back-append (0 ∷ v) 0 (raw_options raw m)
      ∙ raw_options_end m)

  Below-extend :
      (acc : Options) (k v : List ℕ) (m : Options)
      → All (λ p. Below p.0 acc) m
      → Above k m
      → All (λ p. Below p.0 (acc ++ ((k, v) ∷ []))) m
  Below-extend acc k v [] h a = tt
  Below-extend acc k v ((j, w) ∷ m) h a =
      (All-append _ acc ((k, v) ∷ []) h.0 (a.0, tt), Below-extend acc k v m h.1 a.1)

  decode_loop-raw :
      (m acc : Options) (fuel : ℕ)
      → IsSorted m
      → AreNulFree m
      → All (λ p. Below p.0 acc) m
      → length (raw_options raw m) ≤ fuel
      → decode_loop fuel (raw_options raw m) acc ≡ some (ok (acc ++ m))
  decode_loop-raw [] acc fuel s f b h = unfold raw_options decode_loop in rw append-nil
  decode_loop-raw ((k, v) ∷ m) acc zero s f b h =
      absurd (omega (arith, raw_options_pos ((k, v) ∷ m) (λ e. cc)))
  decode_loop-raw ((k, v) ∷ m) acc (suc fuel) s f b h = rw (raw_options_cons k v m) (
      decode_loop_step fuel k v (raw_options raw m) acc f.0.0 f.0.1
      ∙ rw (OptionMap.emplace_last k v acc b.0) (
          decode_loop-raw m (acc ++ ((k, v) ∷ [])) fuel s.1 f.1 (Below-extend acc k v m b.1 s.0)
            shorter
          ∙ rw append_assoc))
    where
      shorter : length (raw_options raw m) ≤ fuel
      shorter = omega (
        arith,
        ap length (raw_options_cons k v m),
        length-append k (0 ∷ (v ++ (0 ∷ raw_options raw m))),
        length-append v (0 ∷ raw_options raw m),
      )

  empty_Below : (m : Options) → All (λ p. Below p.0 []) m
  empty_Below [] = tt
  empty_Below (p ∷ m) = (tt, empty_Below m)

  -- A map of options whose names and values are free of the character 0 is read back as it was
  -- written.
  pub decode_options-raw_options :
      (m : Options) → IsSorted m → AreNulFree m → decode_options (raw_options raw m) ≡ ok m
  unfolding decode_options
  decode_options-raw_options m s f = rw (
    decode_loop-raw m [] (length (raw_options raw m)) s f (empty_Below m) (omega arith),
    decode_options,
  )
