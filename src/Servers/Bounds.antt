-- ===== src/Servers/Bounds.antt =====
-- The block sizes that the server operations agree to (ServerImpl::tftpOptions, and
-- ReadOperationImpl::start and WriteOperationImpl::start of lib/tftp/servers/implementation).
use tftp_senior_design.Base.{ℕ, min, ◌≤◌}
use tftp_senior_design.Packets.{block_size_option_min, block_size_option_max}
use tftp_senior_design.Packets.OptionMap.{Options}
use tftp_senior_design.Packets.TftpOptions.{TftpOptions}

-- What RFC 2348 allows.
abbrev IsBlockSize : ℕ → Type 0
IsBlockSize n = (block_size_option_min ≤ n) × (n ≤ block_size_option_max)

-- What may be agreed to, with `size` configured.
abbrev pub IsAgreed : ℕ → ℕ → Type 0
IsAgreed size n = (min block_size_option_min size ≤ n) × (n ≤ block_size_option_max) × (n ≤ size)
