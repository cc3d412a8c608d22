-- ===== src/Tftp.antt =====
-- lib/tftp/Tftp.hpp, TftpOptionsConfiguration.hpp and the data handler interfaces
-- (ReceiveDataHandler.hpp, TransmitDataHandler.hpp, DataHandler.hpp).
pub mod Contracts
use tftp_senior_design.Base.{ℕ, Bool, false, Option, none, List}

pub data RequestType : Type 0 where
  read write : RequestType

pub data TransferStatus : Type 0 where
  successful communication_error request_error option_negotiation_error transfer_error aborted :
      TransferStatus

abbrev pub default_tftp_receive_timeout : ℕ
default_tftp_receive_timeout = 2

abbrev pub default_tftp_retries : ℕ
default_tftp_retries = 1

-- Timeouts are in seconds.
pub record TftpOptionsConfiguration : Type 0 where
  pub handle_transfer_size_option : Bool
  pub block_size_option : Option ℕ
  pub timeout_option : Option ℕ

-- `start` also answers whether it threw an exception.
pub record ReceiveDataHandler (H : Type 0) : Type 0 where
  pub start : H → H × Bool
  pub finished : H → H
  pub received_transfer_size : H → ℕ → Bool × H
  pub received_data : H → List ℕ → H

pub record TransmitDataHandler (H : Type 0) : Type 0 where
  pub start : H → H × Bool
  pub finished : H → H
  pub requested_transfer_size : H → Option ℕ × H
  pub send_data : H → ℕ → List ℕ × H

abbrev pub default_options_configuration : TftpOptionsConfiguration
default_options_configuration = record {
  handle_transfer_size_option = false;
  block_size_option = none;
  timeout_option = none;
}
