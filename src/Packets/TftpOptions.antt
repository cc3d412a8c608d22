-- ===== src/Packets/TftpOptions.antt =====
-- lib/tftp/packets/TftpOptions.hpp: the options that are known, decoded.
use tftp_senior_design.Base.{ℕ, Bool, Option, has_value, ◌||◌}

pub record TftpOptions : Type 0 where
  pub client_block_size : Option ℕ
  pub client_timeout : Option ℕ
  pub client_transfer_size : Option ℕ

-- `operator bool`: whether any option is set.
unfoldable pub is_set : TftpOptions → Bool
is_set o =
    has_value o.client_block_size || has_value o.client_timeout || has_value o.client_transfer_size
