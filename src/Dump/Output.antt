-- ===== src/Dump/Output.antt =====
-- cmd/rtrdump/rtrdump.go: main from its flags to the file that it writes.
pub mod Entries
pub mod Written
use stayrtr.Prelude.{
  ℕ, ◌≡◌, refl, ap, ◌∙◌, arith, Bool, true, false, Option, none, some, List, [], ◌∷◌, Text, length,
  ◌==◌, All, if◌then◌else◌, Bool-cases, inl, inr,
}
use stayrtr.Net.{IpNet}
use stayrtr.Pdu.{Pdu, protocol_version_1}
use stayrtr.Prefixfile.{VrpList}
use stayrtr.Pdu.Decode.{read_error}
use stayrtr.Session.{
  ClientSession, new_client_session, send_reset_query, send_serial_query, session_send_pdu,
}
use stayrtr.Session.Stream.{write_all}
use stayrtr.Session.Listener.{IsKept, listener, until_stop}
use stayrtr.Session.Ending.{start_result, stops, start_result-write_all}
use stayrtr.Session.Connect.{Opening}
use stayrtr.Session.Network.{
  Network, Opened, opened, not_opened, Started, connect, start_opened, decode_error,
}
use stayrtr.Dump.{DumpClient, dump_pdu, dump_connected}
use stayrtr.Dump.Connect.{DumpFlags, client_of_flags, dump_start}

-- How main ends: with log.Fatal, or with the list that it has written to a file, or to the standard
-- output where no file is named. A failure to write what was opened is left out.
pub data Exit : Type 0 where
  fatal : Exit
  wrote_file : Text → VrpList → Exit
  wrote_stdout : VrpList → Exit

-- main, behind the session; `create` says whether os.Create succeeds.
unfoldable pub write_output : (Text → Bool) → Text → VrpList → Exit
write_output create out_file vrps =
    if length out_file == 0
    then wrote_stdout vrps
    else if create out_file
    then wrote_file out_file vrps
    else fatal

module _ (create : Text → Bool) (out_file : Text) where
  -- main, once Start has returned
  unfoldable pub finish : Started DumpClient → Exit
  finish ended = elim (ended.error) [
    | some e ↦ fatal
    | none ↦ write_output create out_file ended.handler_state.data_of
  ]

module _ (ipnet_string : IpNet → Text) {Signer Conn SshClient SshSession : Type 0}
    (network : Network Signer Conn SshClient SshSession) (getenv : Text → Text)
    (read_file : Text → Option Text) (parse_private_key : Text → Option Signer)
    (create : Text → Bool) where
  -- The session of main over what its call of Start opens.
  unfoldable pub dump_session : DumpFlags → Opening Signer → Option (Started DumpClient)
  dump_session flags opening =
      start_opened (listener (dump_pdu ipnet_string) dump_connected)
        (client_of_flags flags, new_client_session protocol_version_1 true)
        (connect network opening)

  -- main, from its flags on; none stands for a session that does not end.
  unfoldable pub dump_main : DumpFlags → Text → Option Exit
  dump_main flags out_file = elim (dump_start getenv read_file parse_private_key flags) [
    | none ↦ some fatal
    | some opening ↦ elim (dump_session flags opening) [
      | none ↦ none
      | some ended ↦ some (finish create out_file ended)
    ]
  ]
