-- ===== src/Monitor/Connect/Same.antt =====
-- The connections of the monitor and those of rtrdump with the same flags (cmd/rtrmon/rtrmon.go and
-- cmd/rtrdump/rtrdump.go).
use stayrtr.Prelude.{
  ℕ, ◌≡◌, refl, arith, ap, ◌∙◌, sym, true, false, Option, none, some, List, [], ◌∷◌, Text, codes,
  if◌then◌else◌, ◌==◌, length, Bool-cases, Option-cases, inl, inr,
}
use stayrtr.Prelude.Options.{◌>>=◌}
use stayrtr.Session.Connect.{
  AuthMethod, with_password, with_public_keys, Opening, start, checks_host_key, auth_to_id,
  method_password, method_key,
}
use stayrtr.Dump.Connect.{dump_password, dump_key_bytes, dump_keys, dump_auth, dump_start}
use stayrtr.Monitor.Connect.{
  opens, HostFlags, Settings, new_settings, set_flags, scheme_to_id, is_rtr, read_key, with_key,
  set_key, set_primary_password, set_secondary_password, primary_client, secondary_client,
  session_keys, session_auth, session_start,
}
use stayrtr.Monitor.Connect.Trusting.{
  trusting, same-type, chosen, itself, not-key, IsTrusting, set_flags-IsTrusting,
  password-IsTrusting,
}

module _ {Signer : Type 0} (getenv : Text → Text) (dump_getenv : Text → Text)
    (read_file : Text → Option Text) (parse_private_key : Text → Option Signer) (flags : HostFlags)
    (conn_type rtr_addr : Text) (rtr : is_rtr conn_type ≡ true) where
  -- what a session makes of its settings, and main of rtrdump of its flags, once the credentials are
  -- known
  abbrev open_with : List (AuthMethod Signer) → Option (Opening Signer)
  open_with auth = some (
      start rtr_addr (scheme_to_id conn_type) (record { insecure_skip_verify = true })
        (record {
          auth = auth;
          user = flags.ssh_auth_user;
          host_key_callback = checks_host_key false [];
        }))

  session-opens :
      (m : ℕ) (c : Settings)
      → IsTrusting flags m c
      → session_start parse_private_key c conn_type rtr_addr
        ≡ (session_auth parse_private_key c >>= open_with)
  unfolding session_start
  session-opens m c h = rw (session_start, h.cert, h.ssh, h.key, h.user) refl

  opens-key :
      (env : Text) (c : Settings)
      → IsTrusting flags method_key c
      → opens parse_private_key conn_type rtr_addr (set_key getenv read_file env flags c) ≡ (
          (read_key getenv read_file env flags >>= λ k.
          parse_private_key k >>= λ signer. some (with_public_keys signer ∷ []))
          >>= open_with)
  unfolding set_key with_key session_auth session_keys
  opens-key env c h =
      ap
        (λ a.
          opens parse_private_key conn_type rtr_addr
            (if a == method_key then with_key getenv read_file env flags c else some c))
        h.method
      ∙ elim (Option-cases (read_key getenv read_file env flags)) [
        | inl e ↦ rw (with_key, e) refl
        | inr (k, e) ↦
            let c' = record c { key_bytes = k } in
            let h' : IsTrusting flags method_key c' = record {
              cert = h.cert;
              ssh = h.ssh;
              key = h.key;
              user = h.user;
              method = h.method;
            } in
            rw (with_key, e)
              (session-opens method_key c' h'
                ∙ ap
                    (λ a.
                      (if a == method_password
                        then some (with_password c.ssh_auth_password ∷ [])
                        else if a == method_key
                        then session_keys parse_private_key c'
                        else some [])
                      >>= open_with)
                    h.method)
      ]

  opens-other :
      (env : Text) (m : ℕ) (c : Settings)
      → IsTrusting flags m c
      → (m == method_key) ≡ false
      → opens parse_private_key conn_type rtr_addr (set_key getenv read_file env flags c)
        ≡ (session_auth parse_private_key c >>= open_with)
  unfolding set_key
  opens-other env m c h n =
      ap
        (λ b.
          opens parse_private_key conn_type rtr_addr
            (if b then with_key getenv read_file env flags c else some c))
        (ap (λ a. a == method_key) h.method ∙ n)
      ∙ session-opens m c h

  dump-opens :
      dump_start dump_getenv read_file parse_private_key (trusting flags conn_type rtr_addr) ≡ (
        dump_auth dump_getenv read_file parse_private_key (trusting flags conn_type rtr_addr)
        >>= open_with)
  unfolding dump_start
  dump-opens = rw (← same-type conn_type rtr) refl

  same-key :
      (env : Text)
      → dump_getenv (codes "RTR_SSH_KEY") ≡ getenv env
      → read_key getenv read_file env flags
        ≡ dump_key_bytes dump_getenv read_file parse_private_key (trusting flags conn_type rtr_addr)
  unfolding read_key dump_key_bytes
  same-key env k =
      ap (λ t. if length flags.ssh_auth_key == 0 then some t else read_file flags.ssh_auth_key)
        (sym k)

  session_auth-other :
      (m : ℕ) (c : Settings)
      → c.auth_type ≡ m
      → (m == method_key) ≡ false
      → session_auth parse_private_key c
        ≡ (if m == method_password then some (with_password c.ssh_auth_password ∷ []) else some [])
  unfolding session_auth
  session_auth-other m c e n =
      ap
        (λ a.
          if a == method_password
          then some (with_password c.ssh_auth_password ∷ [])
          else if a == method_key
          then session_keys parse_private_key c
          else some [])
        e
      ∙ ap
          (λ b.
            if m == method_password
            then some (with_password c.ssh_auth_password ∷ [])
            else if b
            then session_keys parse_private_key c
            else some [])
          n

  -- from a client with the settings of main to the session of rtrdump
  settings-dump_start :
      (env : Text) (m : ℕ) (c : Settings)
      → auth_to_id flags.ssh_auth ≡ some m
      → IsTrusting flags m c
      → ((m == method_password) ≡ true
          → c.ssh_auth_password
            ≡ dump_password dump_getenv read_file parse_private_key
                (trusting flags conn_type rtr_addr))
      → dump_getenv (codes "RTR_SSH_KEY") ≡ getenv env
      → opens parse_private_key conn_type rtr_addr (set_key getenv read_file env flags c)
        ≡ dump_start dump_getenv read_file parse_private_key (trusting flags conn_type rtr_addr)
  unfolding dump_auth dump_keys
  settings-dump_start env m c named h password k = elim (Bool-cases (m == method_key)) [
    | inl e ↦
        let is : m ≡ method_key = ground (arith, e) in
        opens-key env c (rw⁻¹ is h)
        ∙ sym (dump-opens ∙ rw (dump_auth, named, is, dump_keys, ← same-key env k) refl)
    | inr e ↦
        opens-other env m c h e
        ∙ ap (λ o. o >>= open_with) (session_auth-other m c h.method e)
        ∙ sym (
            dump-opens
            ∙ rw (dump_auth, named, e)
                (elim (Bool-cases (m == method_password)) [
                  | inl e2 ↦ rw (e2, password e2) refl
                  | inr e2 ↦ rw e2 refl
                ]))
  ]

  -- Whatever the flags of the monitor's first client say about the validation of the server's
  -- certificate and key, a session with it opens what rtrdump would open from the same flags with both
  -- validations turned off, or ends the program where rtrdump would: where the scheme is one of a
  -- session, and rtrdump's two variables of the environment are the monitor's that end in _1.
  pub primary_client-dump_start :
      dump_getenv (codes "RTR_SSH_PASSWORD") ≡ getenv (codes "RTR_SSH_PASSWORD_1")
      → dump_getenv (codes "RTR_SSH_KEY") ≡ getenv (codes "RTR_SSH_KEY_1")
      → opens parse_private_key conn_type rtr_addr (primary_client getenv read_file flags)
        ≡ dump_start dump_getenv read_file parse_private_key (trusting flags conn_type rtr_addr)
  unfolding primary_client dump_auth set_primary_password set_flags new_settings dump_password
  primary_client-dump_start p k = elim (Option-cases (auth_to_id flags.ssh_auth)) [
    | inl e ↦ rw (primary_client, e) (sym (dump-opens ∙ rw (dump_auth, e) refl))
    | inr (m, e) ↦
        let c = set_flags new_settings m flags in
        rw (primary_client, e)
          (settings-dump_start (codes "RTR_SSH_KEY_1") m (set_primary_password getenv read_file c) e
            (password-IsTrusting flags m c (length c.ssh_auth_password == 0)
              (getenv (codes "RTR_SSH_PASSWORD_1")) (set_flags-IsTrusting flags m))
            (λ is.
              chosen c (getenv (codes "RTR_SSH_PASSWORD_1")) (length c.ssh_auth_password == 0)
              ∙ ap (λ t. if length c.ssh_auth_password == 0 then t else c.ssh_auth_password)
                  (sym p))
            k)
  ]

  -- The same of the monitor's second client, for the key of the environment that ends in _2, and for an
  -- environment without a password: where the flag of the password is empty, the second client sends
  -- an empty password, whatever the environment says.
  secondary_client-dump_start :
      dump_getenv (codes "RTR_SSH_PASSWORD") ≡ []
      → dump_getenv (codes "RTR_SSH_KEY") ≡ getenv (codes "RTR_SSH_KEY_2")
      → opens parse_private_key conn_type rtr_addr (secondary_client getenv read_file flags)
        ≡ dump_start dump_getenv read_file parse_private_key (trusting flags conn_type rtr_addr)
  unfolding secondary_client dump_auth set_secondary_password set_flags new_settings dump_password
  secondary_client-dump_start p k = elim (Option-cases (auth_to_id flags.ssh_auth)) [
    | inl e ↦ rw (secondary_client, e) (sym (dump-opens ∙ rw (dump_auth, e) refl))
    | inr (m, e) ↦
        let c = set_flags new_settings m flags in
        rw (secondary_client, e)
          (ap
              (λ o. opens parse_private_key conn_type rtr_addr (
                set_key getenv read_file (codes "RTR_SSH_KEY_2") flags (elim o [
                  | none ↦ c
                  | some method ↦
                      if method == method_key
                      then record c { ssh_auth_password = getenv (codes "RTR_SSH_PASSWORD_2") }
                      else c
                ])))
              e
            ∙ settings-dump_start (codes "RTR_SSH_KEY_2") m
                (if m == method_key
                  then record c { ssh_auth_password = getenv (codes "RTR_SSH_PASSWORD_2") }
                  else c)
                e
                (password-IsTrusting flags m c (m == method_key)
                  (getenv (codes "RTR_SSH_PASSWORD_2")) (set_flags-IsTrusting flags m))
                (λ is.
                  chosen c (getenv (codes "RTR_SSH_PASSWORD_2")) (m == method_key)
                  ∙ ap (λ b. if b then getenv (codes "RTR_SSH_PASSWORD_2") else c.ssh_auth_password)
                      (not-key m is)
                  ∙ itself c.ssh_auth_password
                  ∙ ap (λ t. if length c.ssh_auth_password == 0 then t else c.ssh_auth_password)
                      (sym p))
                k)
  ]
