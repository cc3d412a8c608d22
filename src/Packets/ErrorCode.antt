-- ===== src/Packets/ErrorCode.antt =====
-- lib/tftp/packets/Packets.hpp, ErrorCode. An error code is any 16-bit number: a received one is
-- cast without a check.
use tftp_senior_design.Base.{ℕ}

abbrev pub not_defined : ℕ
not_defined = 0

abbrev pub file_not_found : ℕ
file_not_found = 1

abbrev pub access_violation : ℕ
access_violation = 2

abbrev pub disk_full_or_allocation_exceeds : ℕ
disk_full_or_allocation_exceeds = 3

abbrev pub illegal_tftp_operation : ℕ
illegal_tftp_operation = 4

abbrev pub unknown_transfer_id : ℕ
unknown_transfer_id = 5

abbrev pub file_already_exists : ℕ
file_already_exists = 6

abbrev pub no_such_user : ℕ
no_such_user = 7

abbrev pub tftp_option_refused : ℕ
tftp_option_refused = 8

abbrev pub invalid : ℕ
invalid = 0xffff
