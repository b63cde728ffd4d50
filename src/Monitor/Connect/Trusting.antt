-- ===== src/Monitor/Connect/Trusting.antt =====
-- The clients that main of the monitor makes, and flags of rtrdump that ask for the same
-- (cmd/rtrmon/rtrmon.go and cmd/rtrdump/rtrdump.go).
use stayrtr.Prelude.{
  ℕ, ◌≡◌, refl, arith, ap, sym, Bool, true, false, [], ◌∷◌, Text, text_eq, text_eq_iff, codes,
  if◌then◌else◌, ◌==◌, length, Bool-cases, inl, inr,
}
use stayrtr.Prelude.Int.{pos}
use stayrtr.Session.Connect.{method_password, method_key}
use stayrtr.Dump.Connect.{DumpFlags, type_to_id}
use stayrtr.Monitor.Connect.{HostFlags, Settings, new_settings, set_flags, scheme_to_id, is_rtr}

-- The flags of rtrdump that ask for the same as the flags of a client of the monitor, but for a server
-- that nothing is known of: neither its certificate nor its key is to be validated. rtrdump names the
-- plain connection otherwise.
abbrev pub trusting : HostFlags → Text → Text → DumpFlags
trusting flags conn_type rtr_addr = record {
  connect = rtr_addr;
  conn_type = if text_eq conn_type (codes "tcp") then codes "plain" else conn_type;
  validate_cert = false;
  validate_ssh = false;
  ssh_server_key = [];
  ssh_auth = flags.ssh_auth;
  ssh_auth_user = flags.ssh_auth_user;
  ssh_auth_password = flags.ssh_auth_password;
  ssh_auth_key = flags.ssh_auth_key;
  init_serial = false;
  serial = pos 0;
  session = pos 0;
}

pub same-type :
    (conn_type : Text)
    → is_rtr conn_type ≡ true
    → scheme_to_id conn_type
      ≡ type_to_id (if text_eq conn_type (codes "tcp") then codes "plain" else conn_type)
unfolding scheme_to_id type_to_id is_rtr text_eq
same-type conn_type h = elim (Bool-cases (text_eq conn_type (codes "tcp"))) [
  | inl e ↦ rw ((text_eq_iff conn_type (codes "tcp")).0 e) refl
  | inr e ↦ elim (Bool-cases (text_eq conn_type (codes "ssh"))) [
    | inl e2 ↦ rw ((text_eq_iff conn_type (codes "ssh")).0 e2) refl
    | inr e2 ↦
        let e3 : text_eq conn_type (codes "tls") ≡ true = ground (arith, h, e, e2) in
        rw ((text_eq_iff conn_type (codes "tls")).0 e3) refl
  ]
]

pub chosen :
    (c : Settings) (t : Text) (b : Bool)
    → (if b then record c { ssh_auth_password = t } else c).ssh_auth_password
      ≡ (if b then t else c.ssh_auth_password)
chosen c t true = refl
chosen c t false = refl

pub itself : (t : Text) → t ≡ (if length t == 0 then [] else t)
itself [] = refl
itself (x ∷ t) =
    let z : (length (x ∷ t) == 0) ≡ false = ground arith in
    ap (λ b. if b then [] else x ∷ t) (sym z)

pub not-key : (m : ℕ) → (m == method_password) ≡ true → (m == method_key) ≡ false
not-key m e = ground (arith, e)

-- The client has what main sets for the method `m`, and the zeros of NewClient.
pub record IsTrusting (flags : HostFlags) (m : ℕ) (c : Settings) : Type 0 where
  pub cert : c.validate_cert ≡ false
  pub ssh : c.validate_ssh ≡ false
  pub key : c.ssh_server_key ≡ []
  pub user : c.ssh_auth_user ≡ flags.ssh_auth_user
  pub method : c.auth_type ≡ m

pub set_flags-IsTrusting :
    (flags : HostFlags) (m : ℕ) → IsTrusting flags m (set_flags new_settings m flags)
unfolding set_flags new_settings
set_flags-IsTrusting flags m = record {
  cert = refl;
  ssh = refl;
  key = refl;
  user = refl;
  method = refl;
}

pub password-IsTrusting :
    (flags : HostFlags) (m : ℕ) (c : Settings) (b : Bool) (password : Text)
    → IsTrusting flags m c
    → IsTrusting flags m (if b then record c { ssh_auth_password = password } else c)
password-IsTrusting flags m c true password h = record {
  cert = h.cert;
  ssh = h.ssh;
  key = h.key;
  user = h.user;
  method = h.method;
}
password-IsTrusting flags m c false password h = h
