-- ===== src/Servers/Negotiation.antt =====
-- The options that a server operation agrees to, in ReadOperationImpl::start and
-- WriteOperationImpl::start of lib/tftp/servers/implementation.
use tftp_senior_design.Base.{ℕ, min, Option, none, some, leb, if◌then◌else◌}
use tftp_senior_design.Tftp.{TftpOptionsConfiguration}
use tftp_senior_design.Packets.{block_size, timeout}
use tftp_senior_design.Packets.OptionMap.{Options}
use tftp_senior_design.Packets.TftpOptions.{TftpOptions}
use tftp_senior_design.Clients.RequestOptions.{add_number}

-- The smaller one of both block sizes, if both sides have one.
unfoldable pub agreed_block_size : TftpOptionsConfiguration → TftpOptions → Option ℕ
agreed_block_size c o = elim c.block_size_option [
  | none ↦ none
  | some configured ↦ elim o.client_block_size [
    | none ↦ none
    | some asked ↦ some (min asked configured)
  ]
]

-- The timeout of the client, if it is not above the configured one.
unfoldable pub agreed_timeout : TftpOptionsConfiguration → TftpOptions → Option ℕ
agreed_timeout c o = elim c.timeout_option [
  | none ↦ none
  | some configured ↦ elim o.client_timeout [
    | none ↦ none
    | some asked ↦ if leb asked configured then some asked else none
  ]
]

-- The answer to both options, added to those that the request handler has negotiated.
unfoldable pub answered : TftpOptionsConfiguration → TftpOptions → Options → Options
answered c o m =
    add_number timeout (agreed_timeout c o) (add_number block_size (agreed_block_size c o) m)
