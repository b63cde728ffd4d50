-- ===== src/Tests/Logins.antt =====
-- Logins over SSH, and the connections of the two clients of the monitor.
use stayrtr.Prelude.{
  ◌≡◌, ◌↔◌, refl, arith, true, false, Option, some, [], ◌∷◌, Text, codes, text_eq,
}
use stayrtr.Prelude.Split.{split_on, onto_first}
use stayrtr.Dump.Connect.{dump_start}
use stayrtr.Monitor.Connect.{HostFlags, opens, is_rtr, primary_client}
use stayrtr.Monitor.Connect.Trusting.{trusting}
use stayrtr.Monitor.Connect.Same.{primary_client-dump_start}
use stayrtr.Startup.Access.{
  SshFlags, SshServerConfig, key_text, ssh_keys, check_password, check_key, ssh_server_config,
}
use stayrtr.Startup.Logins.{
  password_of, takes_password, takes_key, IsListed, ssh_server_config_takes,
}

-- an environment and files that all have the same text
abbrev getenv : Text → Text
getenv name = codes "a b"

abbrev read_file : Text → Option Text
read_file name = some (codes "a b")

abbrev ssh_flags : SshFlags
ssh_flags = record {
  enable_password = true;
  user = codes "rpki";
  password = [];
  enable_key = true;
  keys_bypass = false;
  keys_list = [];
}

abbrev ssh_config : SshServerConfig
ssh_config = record {
  password_callback = some (check_password getenv read_file ssh_flags);
  public_key_callback = some (check_key getenv read_file ssh_flags (codes "a b" ∷ []));
  no_client_auth = false;
}

ssh_server_config_takes_example :
    ((takes_password ssh_config (codes "rpki") (codes "x") ≡ true) ↔ (
      (ssh_flags.enable_password ≡ true)
      × (codes "rpki" ≡ ssh_flags.user)
      × (codes "x" ≡ password_of getenv read_file ssh_flags)))
    × ((takes_key ssh_config (codes "rpki") (codes "a") (codes "b") ≡ true)
        ↔ IsListed getenv read_file ssh_flags (key_text (codes "a") (codes "b")))
    × ((ssh_config.no_client_auth ≡ true)
        ↔ ((ssh_flags.enable_key ≡ false) × (ssh_flags.enable_password ≡ false)))
unfolding ssh_server_config ssh_keys split_on onto_first key_text
ssh_server_config_takes_example =
    ssh_server_config_takes getenv read_file ssh_flags ssh_config (codes "rpki") (codes "x")
      (codes "a") (codes "b") refl
      ((λ e. omega (arith, e)), ((λ e. omega (arith, e)), ((λ e. omega (arith, e)), tt)))

abbrev host_flags : HostFlags
host_flags = record {
  host = codes "ssh://a:22";
  validate_cert = true;
  validate_ssh = true;
  ssh_server_key = codes "k";
  ssh_auth = codes "password";
  ssh_auth_user = codes "rpki";
  ssh_auth_password = [];
  ssh_auth_key = [];
  refresh = 600;
  rtr_break = false;
}

-- ssh.ParsePrivateKey, as a function that takes any text for a key
abbrev parse_key : Text → Option Text
parse_key t = some t

abbrev no_env : Text → Text
no_env name = []

primary_client-dump_start_example :
    opens parse_key (codes "ssh") (codes "a:22") (primary_client getenv read_file host_flags)
    ≡ dump_start getenv read_file parse_key (trusting host_flags (codes "ssh") (codes "a:22"))
unfolding is_rtr text_eq
primary_client-dump_start_example =
    primary_client-dump_start getenv getenv read_file parse_key host_flags (codes "ssh")
      (codes "a:22") refl refl refl
