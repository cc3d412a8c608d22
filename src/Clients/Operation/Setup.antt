-- ===== src/Clients/Operation/Setup.antt =====
-- lib/tftp/clients/implementation/OperationImpl.cpp: the functions that set an operation up.
use tftp_senior_design.Base.{ℕ, Bool}
use tftp_senior_design.Clients.Operation.{Operation}

module _ {E D : Type 0} where
  -- `tftpTimeout`, `tftpRetries`, `remote`, `local`, `completionHandler`, `maxReceivePacketSize` and
  -- `receiveTimeout`.
  unfoldable pub set_tftp_timeout : ℕ → Operation E D → Operation E D
  set_tftp_timeout n s = record s { receive_timeout = n }

  unfoldable pub set_tftp_retries : ℕ → Operation E D → Operation E D
  set_tftp_retries n s = record s { tftp_retries = n }

  unfoldable pub set_remote : E → Operation E D → Operation E D
  set_remote e s = record s { remote = e }

  unfoldable pub set_local : E → Operation E D → Operation E D
  set_local e s = record s { local = e }

  unfoldable pub set_completion_handler : Bool → Operation E D → Operation E D
  set_completion_handler b s = record s { has_completion_handler = b }

  unfoldable pub max_receive_packet_size : ℕ → Operation E D → Operation E D
  max_receive_packet_size n s = record s { receive_packet_size = n }

  unfoldable pub set_receive_timeout : ℕ → Operation E D → Operation E D
  set_receive_timeout n s = record s { receive_timeout = n }
