-- ===== src/Files/Contracts.antt =====
-- lib/tftp/files/MemoryFile.cpp and StreamFile.cpp as instances of the contracts of the data handlers.
use tftp_senior_design.Base.{
  ℕ, refl, sym, ap, inl, inr, Bool, true, false, not, List, [], append-nil, arith, leb, if_elim,
  Bool-cases, length, take, drop, length-take, length-drop, drop_all, take_all, ◌+◌, ◌-◌, ◌≤◌, ◌≡◌,
  ◌∙◌, ◌&&◌, ◌∷◌, ◌++◌, if◌then◌else◌,
}
use tftp_senior_design.Tftp.Contracts.{Source, Sink}
use tftp_senior_design.Files.{FileOperation, receiving_file, transmitting_file}
use tftp_senior_design.Files.MemoryFile
use tftp_senior_design.Files.MemoryFile.{MemoryFile}
use tftp_senior_design.Files.StreamFile
use tftp_senior_design.Files.StreamFile.{StreamFile}
use tftp_senior_design.Transfers.Blocks.{take_nil, drop_nil, drop-drop}

abbrev pub is_receiving : FileOperation → Bool
is_receiving receiving_file = true
is_receiving transmitting_file = false

pub receives : (o : FileOperation) → is_receiving o ≡ true → o ≡ receiving_file
receives receiving_file e = refl
receives transmitting_file e = cc

-- What a file has when it has started.
abbrev pub started : FileOperation → List ℕ → List ℕ
started receiving_file contents = []
started transmitting_file contents = contents

-- To take more than there is is to take all.
take_more : (m n : ℕ) (xs : List ℕ) → length xs ≤ m → length xs ≤ n → take m xs ≡ take n xs
take_more m n xs h k = take_all m xs h ∙ sym (take_all n xs k)

pub memory_receives :
    (f : MemoryFile) (c : List ℕ) → (MemoryFile.received_data f c).contents ≡ f.contents ++ c
unfolding MemoryFile.received_data
memory_receives f [] = sym (append-nil f.contents)
memory_receives f (b ∷ c) = refl

pub memory_starts :
    (o : FileOperation) (f : MemoryFile)
    → f.operation ≡ o
    → (MemoryFile.start f).contents ≡ started o f.contents
unfolding MemoryFile.start
memory_starts receiving_file f e = rw e refl
memory_starts transmitting_file f e = rw e refl

pub memory_finished : (f : MemoryFile) → (MemoryFile.finished f).contents ≡ f.contents
unfolding MemoryFile.finished
memory_finished f = refl

pub memory_sends :
    (f : MemoryFile) (n : ℕ) → (MemoryFile.send_data f n).0 ≡ take n (drop f.position f.contents)
unfolding MemoryFile.send_data
memory_sends f n =
    let rest = drop f.position f.contents in
    let size = length-drop f.position f.contents in
    if_elim (λ stop. take (stop - f.position) rest ≡ take n rest)
      (leb (length f.contents - f.position) n) _ _
      (λ e. take_more _ n rest (omega (arith, size)) (ground (arith, size, e)))
      (λ e. ap (λ k. take k rest) (omega arith))

pub memory_keeps :
    (f : MemoryFile) (n : ℕ)
    → drop (MemoryFile.send_data f n).1.position (MemoryFile.send_data f n).1.contents
      ≡ drop n (drop f.position f.contents)
unfolding MemoryFile.send_data
memory_keeps f n =
    let rest = drop f.position f.contents in
    let size = length-drop f.position f.contents in
    if_elim (λ stop. drop stop f.contents ≡ drop n rest) (leb (length f.contents - f.position) n) _
      _
      (λ e.
        drop_all (length f.contents) f.contents (omega arith)
        ∙ sym (drop_all n rest (ground (arith, size, e))))
      (λ e. sym (drop-drop f.position n f.contents))

-- A file in memory collects what it is given, if it was made to receive.
unfoldable pub memory_sink : Sink MemoryFile.receiver
memory_sink = record {
  got = λ f. f.contents;
  is_live = λ f. true;
  accepts = λ f. is_receiving f.operation;
  start_lem =
      λ f accepts threw. (memory_starts receiving_file f (receives f.operation accepts), refl);
  received_data_lem = λ f c live. (memory_receives f c, refl);
  finished_lem = λ f. memory_finished f;
}

-- A file in memory hands out its contents, if it was made to transmit.
unfoldable pub memory_source : Source MemoryFile.transmitter
unfolding MemoryFile.start
memory_source = record {
  rest = λ f. drop f.position f.contents;
  file = λ f. started f.operation f.contents;
  start_lem = λ f threw. memory_starts f.operation f refl;
  send_data_lem = memory_sends;
  rest_lem = memory_keeps;
}

abbrev pub is_good : StreamFile → Bool
is_good f = f.is_open && not f.has_failed

abbrev pub unread : StreamFile → List ℕ
unread f = if is_good f then drop f.position f.contents else []

stream_contents :
    (o : FileOperation) (f : StreamFile)
    → f.operation ≡ o
    → (elim f.operation [ receiving_file ↦ [] | transmitting_file ↦ f.contents ])
      ≡ started o f.contents
stream_contents receiving_file f e = rw e refl
stream_contents transmitting_file f e = rw e refl

abbrev pub IsStarted : StreamFile → FileOperation → StreamFile → Type 0
IsStarted f o t = (t.contents ≡ started o f.contents) × (t.position ≡ 0) × (is_good t ≡ true)

pub stream_starts :
    (o : FileOperation) (f : StreamFile)
    → f.operation ≡ o
    → (StreamFile.start f).1 ≡ false
    → IsStarted f o (StreamFile.start f).0
unfolding StreamFile.start
stream_starts o f e threw =
    if_elim (λ (r : StreamFile × Bool). r.1 ≡ false → IsStarted f o r.0)
      (f.openable && not f.is_open) _ _ (λ _ _. (stream_contents o f e, refl, refl)) (λ _ t. cc)
      threw

pub stream_receives :
    (f : StreamFile) (c : List ℕ)
    → is_good f ≡ true
    → ((StreamFile.received_data f c).contents ≡ f.contents ++ c)
      × (is_good (StreamFile.received_data f c) ≡ true)
unfolding StreamFile.received_data
stream_receives f c live =
    if_elim (λ (t : StreamFile). (t.contents ≡ f.contents ++ c) × (is_good t ≡ true)) (is_good f) _
      _ (λ e. (refl, live)) (λ e. cc)

-- To drop what was taken is to drop as much as was asked for.
drop_taken :
    (n : ℕ) (p : ℕ) (xs : List ℕ) → drop (p + length (take n (drop p xs))) xs ≡ drop n (drop p xs)
drop_taken n p xs =
    let size = length-take n (drop p xs) in
    elim (Bool-cases (leb n (length (drop p xs)))) [
      | inl e ↦ ap (λ k. drop (p + k) xs) (ground (arith, size, e)) ∙ sym (drop-drop p n xs)
      | inr e ↦
          drop_all _ xs (ground (arith, size, e, length-drop p xs))
          ∙ sym (drop_all n (drop p xs) (ground (arith, e)))
    ]

pub stream_sends :
    (f : StreamFile) (n : ℕ)
    → ((StreamFile.send_data f n).0 ≡ take n (unread f))
      × (unread (StreamFile.send_data f n).1 ≡ drop n (unread f))
unfolding StreamFile.send_data
stream_sends f n = elim (Bool-cases (is_good f)) [
  | inl good ↦ simp good (refl, drop_taken n f.position f.contents)
  | inr bad ↦ simp bad (sym (take_nil n), sym (drop_nil n))
]

pub stream_finished : (f : StreamFile) → (StreamFile.finished f).contents ≡ f.contents
unfolding StreamFile.finished
stream_finished f = refl

-- A file that is open for writing collects what it is given.
unfoldable pub stream_sink : Sink StreamFile.receiver
stream_sink = record {
  got = λ f. f.contents;
  is_live = is_good;
  accepts = λ f. is_receiving f.operation;
  start_lem = λ f accepts threw.
      let w = stream_starts receiving_file f (receives f.operation accepts) threw in (w.0, w.2);
  received_data_lem = stream_receives;
  finished_lem = stream_finished;
}

pub stream_rest :
    (f : StreamFile)
    → (StreamFile.start f).1 ≡ false
    → unread (StreamFile.start f).0 ≡ started f.operation f.contents
stream_rest f threw = let w = stream_starts f.operation f refl threw in rw (w.2, w.1) w.0

-- A file that is open for reading hands out its contents.
unfoldable pub stream_source : Source StreamFile.transmitter
stream_source = record {
  rest = unread;
  file = λ f. started f.operation f.contents;
  start_lem = stream_rest;
  send_data_lem = λ f n. (stream_sends f n).0;
  rest_lem = λ f n. (stream_sends f n).1;
}
