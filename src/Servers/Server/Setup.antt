-- ===== src/Servers/Server/Setup.antt =====
-- lib/tftp/servers/implementation/ServerImpl.cpp: the constructor and the functions that set a server up.
use tftp_senior_design.Base.{ℕ, Bool, false, none, some, []}
use tftp_senior_design.Tftp.{TftpOptionsConfiguration}
use tftp_senior_design.Network.{Network}
use tftp_senior_design.Packets.{default_max_packet_size}
use tftp_senior_design.Servers.Server.{Server}

-- The constructor, for a server whose calls fail as `receive_faults` and `faults` say; `default_local`
-- is the default of the address.
unfoldable pub create : {E : Type 0} → Network E → E → (ℕ → Bool) → (ℕ → Bool) → Server E
create net default_local receive_faults faults = record {
  has_request_handler = false;
  server_address = default_local;
  tftp_timeout_default = none;
  tftp_retries_default = none;
  dally_default = none;
  options_configuration_default = none;
  local_default = net.no_endpoint;
  transmit_statistic = [];
  receive_statistic = [];
  receive_packet_size = default_max_packet_size;
  receiving = false;
  escaped = false;
  receive_faults = receive_faults;
  faults = faults;
  trace = [];
}

module _ {E : Type 0} where
  -- `requestHandler`, `serverAddress`, `tftpTimeoutDefault`, `tftpRetriesDefault`, `dallyDefault`,
  -- `optionsConfigurationDefault` and `localDefault`.
  unfoldable pub set_request_handler : Bool → Server E → Server E
  set_request_handler b s = record s { has_request_handler = b }

  unfoldable pub set_server_address : E → Server E → Server E
  set_server_address e s = record s { server_address = e }

  unfoldable pub set_tftp_timeout_default : ℕ → Server E → Server E
  set_tftp_timeout_default n s = record s { tftp_timeout_default = some n }

  unfoldable pub set_tftp_retries_default : ℕ → Server E → Server E
  set_tftp_retries_default n s = record s { tftp_retries_default = some n }

  unfoldable pub set_dally_default : Bool → Server E → Server E
  set_dally_default b s = record s { dally_default = some b }

  unfoldable pub set_options_configuration_default : TftpOptionsConfiguration → Server E → Server E
  set_options_configuration_default c s = record s { options_configuration_default = some c }

  unfoldable pub set_local_default : E → Server E → Server E
  set_local_default e s = record s { local_default = e }
