-- ===== src/Tests/Files.antt =====
-- The JSON file and the local exceptions.
use stayrtr.Prelude.{
  ℕ, false, Option, true, ◌≡◌, none, some, List, [], ◌∷◌, Text, codes, if◌then◌else◌,
}
use stayrtr.Prelude.Int.{pos, negsuc}
use stayrtr.Prefixfile.{VrpJson, string, uint32}
use stayrtr.Prefixfile.Slurm.{SlurmConfig, filter_on_vrps}
use stayrtr.Prefixfile.Matching.{IsSplit, filter_on_vrps-IsSplit}
use stayrtr.Feed.{process_data}
use stayrtr.Feed.Process.{key_count, is_present, process_data-key_count}
use stayrtr.Fetch.{new_fetch_config}
use stayrtr.Feed.State.{State}
use stayrtr.Tests.{cache, raw_text, parse, no_float, no_number}

abbrev pub entry10 : VrpJson
entry10 = record {
  prefix = codes "10.0.0.0/8";
  length = 24;
  asn = string (codes "AS7");
  ta = codes "ta";
  expires = pos 0;
}

abbrev entry11 : VrpJson
entry11 = record {
  prefix = codes "11.0.0.0/8";
  length = 16;
  asn = uint32 8;
  ta = codes "ta";
  expires = pos 0;
}

abbrev pub entries : List VrpJson
entries = entry10 ∷ entry11 ∷ entry10 ∷ []

-- filters AS7 out, and asserts one prefix
abbrev pub slurm : SlurmConfig
slurm = record {
  slurm_version = pos 1;
  prefix_filters = record { prefix = []; asn = uint32 7; comment = [] } ∷ [];
  prefix_assertions =
      record {
        prefix = codes "10.0.0.0/8";
        asn = 5;
        max_prefix_length = negsuc 0;
        comment = codes "ours";
      }
      ∷ [];
}

-- the key that processData gives `entry10`
abbrev entry_key : Text
entry_key = 10 ∷ 0 ∷ 0 ∷ 0 ∷ 255 ∷ 0 ∷ 0 ∷ 0 ∷ codes ",7,24"

process_data_example :
    key_count raw_text parse no_float entry_key (process_data raw_text parse no_float entries).0
    ≡ (if is_present raw_text parse no_float entry_key entries then 1 else 0)
process_data_example = process_data-key_count raw_text parse no_float entry_key entries

filter_on_vrps_example :
    IsSplit parse no_float no_number slurm entries
      (filter_on_vrps parse no_float no_number slurm entries)
filter_on_vrps_example = filter_on_vrps-IsSplit parse no_float no_number slurm entries

abbrev pub no_time : Text → Option ℕ
no_time t = none

abbrev pub feed : State
feed = record {
  lastdata = record { metadata = record { counts = 3; buildtime = [] }; data_of = some entries };
  lasthash = none;
  lastchange = none;
  lastts = 0;
  send_notifs = true;
  fetch_config = new_fetch_config;
  server = cache;
  exported = record { metadata = record { counts = 0; buildtime = [] }; data_of = none };
  slurm = some slurm;
  checktime = false;
  last_refresh = [];
  refresh_status_code = [];
}
