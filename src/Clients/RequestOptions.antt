-- ===== src/Clients/RequestOptions.antt =====
-- The options that a client sends with its request, in ReadOperationImpl::request and
-- WriteOperationImpl::request of lib/tftp/clients/implementation.
use tftp_senior_design.Base.{ℕ, true, Option, none, some, has_value, ◌%◌, ◌≤◌, ◌≡◌, if◌then◌else◌}
use tftp_senior_design.Text.{text}
use tftp_senior_design.Text.Number.{to_string}
use tftp_senior_design.Tftp.{TftpOptionsConfiguration}
use tftp_senior_design.Packets.{KnownOption, block_size, timeout, transfer_size}
use tftp_senior_design.Packets.OptionMap.{Options, emplace}
use tftp_senior_design.Packets.Options.{name}

-- `try_emplace` of a number, if there is one.
unfoldable pub add_number : KnownOption → Option ℕ → Options → Options
add_number k none m = m
add_number k (some n) m = emplace (name k) (to_string n) m

-- The seconds of the timeout are cast to 16 bits.
unfoldable pub timeout_number : Option ℕ → Option ℕ
timeout_number none = none
timeout_number (some n) = some (n % 65536)

-- The options up to the transfer size.
unfoldable pub base_options : TftpOptionsConfiguration → Options → Options
base_options c additional =
    add_number timeout (timeout_number c.timeout_option)
      (add_number block_size c.block_size_option additional)

-- Those of a read request, which asks for the transfer size.
unfoldable pub read_options : TftpOptionsConfiguration → Options → Options
read_options c additional =
    if c.handle_transfer_size_option
    then emplace (name transfer_size) (text "0") (base_options c additional)
    else base_options c additional

-- Those of a write request, which announces the transfer size that the data handler knows.
unfoldable pub write_options : TftpOptionsConfiguration → Option ℕ → Options → Options
write_options c size additional =
    if c.handle_transfer_size_option
    then add_number transfer_size size (base_options c additional)
    else base_options c additional

-- `*option`, which is read only where a value is present.
abbrev pub deref : Option ℕ → ℕ
deref none = 0
deref (some n) = n

-- A block size that may be negotiated under a configuration.
pub record IsNegotiable (c : TftpOptionsConfiguration) (n : ℕ) : Type 0 where
  pub requested : has_value c.block_size_option ≡ true
  pub at_least : 8 ≤ n
  pub at_most : n ≤ deref c.block_size_option
