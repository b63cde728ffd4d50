-- ===== src/Dump/Output/Entries.antt =====
-- What the PDUs that rtrdump reads stand for, and where its list goes (cmd/rtrdump/rtrdump.go, HandlePDU
-- and main), described without the program.
use stayrtr.Prelude.{
  ℕ, suc, ◌≡◌, refl, arith, ap, ◌∙◌, sym, Bool, true, false, some, List, [], ◌∷◌, ◌++◌, Text,
  length, length-append, append_assoc, append-nil, if◌then◌else◌, ◌==◌,
}
use stayrtr.Prelude.Int.{pos}
use stayrtr.Net.{IpNet}
use stayrtr.Pdu.{
  Pdu, serial_notify, serial_query, reset_query, cache_response, ipv4_prefix, ipv6_prefix,
  end_of_data, cache_reset, router_key, error_report,
}
use stayrtr.Prefixfile.{VrpJson, VrpList, uint32}
use stayrtr.Session.Listener.{until_stop}
use stayrtr.Session.Ending.{stops}
use stayrtr.Dump.{DumpClient, append_vrp, dump_prefix, dump_pdu, dump_connected}
use stayrtr.Dump.Whole.{with_data}
use stayrtr.Dump.Output.{Exit, fatal, wrote_file, wrote_stdout, write_output}

-- Is there a PDU that is neither a prefix nor a Cache Response?
abbrev pub is_ended : List Pdu → Bool
is_ended [] = false
is_ended (ipv4_prefix p ∷ pdus) = is_ended pdus
is_ended (ipv6_prefix p ∷ pdus) = is_ended pdus
is_ended (cache_response p ∷ pdus) = is_ended pdus
is_ended (_ ∷ pdus) = true

-- Where a list goes: to the file that is named, if it can be created, or to the standard output.
abbrev pub written : (Text → Bool) → Text → VrpList → Exit
written create [] vrps = wrote_stdout vrps
written create (c ∷ name) vrps = if create (c ∷ name) then wrote_file (c ∷ name) vrps else fatal

pub write_output-written :
    (create : Text → Bool) (out_file : Text) (vrps : VrpList)
    → write_output create out_file vrps ≡ written create out_file vrps
unfolding write_output
write_output-written create [] vrps = refl
write_output-written create (c ∷ name) vrps =
    let named : (length (c ∷ name) == 0) ≡ false = ground arith in rw (write_output, named) refl

-- The list of a file with these entries, counted.
abbrev pub counted : List VrpJson → VrpList
counted vrps = record {
  metadata = record { counts = length vrps; buildtime = [] };
  data_of = some vrps;
}

module _ (ipnet_string : IpNet → Text) where
  abbrev pub entry : IpNet → ℕ → ℕ → VrpJson
  entry prefix max_len asn = record {
    prefix = ipnet_string prefix;
    length = max_len;
    asn = uint32 asn;
    ta = [];
    expires = pos 0;
  }

  -- An entry for each prefix up to the first PDU that is neither a prefix nor a Cache Response, in
  -- their order.
  abbrev pub entries : List Pdu → List VrpJson
  entries [] = []
  entries (ipv4_prefix p ∷ pdus) = entry p.prefix p.max_len p.asn ∷ entries pdus
  entries (ipv6_prefix p ∷ pdus) = entry p.prefix p.max_len p.asn ∷ entries pdus
  entries (cache_response p ∷ pdus) = entries pdus
  entries (_ ∷ pdus) = []

  pub stops-is_ended :
      (pdus : List Pdu) (c : DumpClient)
      → stops (dump_pdu ipnet_string) dump_connected c pdus ≡ is_ended pdus
  unfolding dump_pdu
  stops-is_ended [] c = refl
  stops-is_ended (ipv4_prefix p ∷ pdus) c = stops-is_ended pdus _
  stops-is_ended (ipv6_prefix p ∷ pdus) c = stops-is_ended pdus _
  stops-is_ended (cache_response p ∷ pdus) c = stops-is_ended pdus c
  stops-is_ended (serial_notify p ∷ pdus) c = refl
  stops-is_ended (serial_query p ∷ pdus) c = refl
  stops-is_ended (reset_query p ∷ pdus) c = refl
  stops-is_ended (end_of_data p ∷ pdus) c = refl
  stops-is_ended (cache_reset p ∷ pdus) c = refl
  stops-is_ended (router_key p ∷ pdus) c = refl
  stops-is_ended (error_report p ∷ pdus) c = refl

  -- the data of the client after the PDUs
  abbrev read_data : DumpClient → List Pdu → VrpList
  read_data c pdus = (until_stop (dump_pdu ipnet_string) c pdus).data_of

  module _ (init_serial : Bool) (serial session_id : ℕ) where
    abbrev client : List VrpJson → DumpClient
    client vrps = with_data ipnet_string init_serial serial session_id vrps

    dump_prefix-client :
        (vrps : List VrpJson) (prefix : IpNet) (max_len asn : ℕ)
        → dump_prefix ipnet_string (client vrps) prefix max_len asn
          ≡ client (vrps ++ (entry prefix max_len asn ∷ []))
    unfolding dump_prefix append_vrp
    dump_prefix-client vrps prefix max_len asn =
        let more = vrps ++ (entry prefix max_len asn ∷ []) in
        let count : suc (length vrps) ≡ length more =
          omega (arith, length-append vrps (entry prefix max_len asn ∷ [])) in
        ap
          (λ n. record (client more) {
            data_of = record {
              metadata = record { counts = n; buildtime = [] };
              data_of = some more;
            };
          })
          count

    prefix-read :
        (vrps : List VrpJson) (prefix : IpNet) (max_len asn : ℕ) (pdus : List Pdu)
        → ((more : List VrpJson) → read_data (client more) pdus ≡ counted (more ++ entries pdus))
        → read_data (dump_prefix ipnet_string (client vrps) prefix max_len asn) pdus
          ≡ counted (vrps ++ (entry prefix max_len asn ∷ entries pdus))
    prefix-read vrps prefix max_len asn pdus later =
        ap (λ c. read_data c pdus) (dump_prefix-client vrps prefix max_len asn)
        ∙ later (vrps ++ (entry prefix max_len asn ∷ []))
        ∙ ap counted (append_assoc vrps (entry prefix max_len asn ∷ []) (entries pdus))

    pub read_data-entries :
        (vrps : List VrpJson) (pdus : List Pdu)
        → read_data (client vrps) pdus ≡ counted (vrps ++ entries pdus)
    unfolding dump_pdu
    read_data-entries vrps [] = ap counted (sym (append-nil vrps))
    read_data-entries vrps (ipv4_prefix p ∷ pdus) =
        prefix-read vrps p.prefix p.max_len p.asn pdus (λ more. read_data-entries more pdus)
    read_data-entries vrps (ipv6_prefix p ∷ pdus) =
        prefix-read vrps p.prefix p.max_len p.asn pdus (λ more. read_data-entries more pdus)
    read_data-entries vrps (cache_response p ∷ pdus) = read_data-entries vrps pdus
    read_data-entries vrps (serial_notify p ∷ pdus) = ap counted (sym (append-nil vrps))
    read_data-entries vrps (serial_query p ∷ pdus) = ap counted (sym (append-nil vrps))
    read_data-entries vrps (reset_query p ∷ pdus) = ap counted (sym (append-nil vrps))
    read_data-entries vrps (end_of_data p ∷ pdus) = ap counted (sym (append-nil vrps))
    read_data-entries vrps (cache_reset p ∷ pdus) = ap counted (sym (append-nil vrps))
    read_data-entries vrps (router_key p ∷ pdus) = ap counted (sym (append-nil vrps))
    read_data-entries vrps (error_report p ∷ pdus) = ap counted (sym (append-nil vrps))
