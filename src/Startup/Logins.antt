-- ===== src/Startup/Logins.antt =====
-- Which logins over SSH the configuration of run takes (cmd/stayrtr/stayrtr.go).
use stayrtr.Prelude.{
  ◌≡◌, ◌↔◌, ◌⊎◌, inl, inr, refl, arith, ap, Bool, true, false, not, ◌||◌, Option, none, some, [],
  ◌∷◌, ◌++◌, Text, text_eq_iff, if◌then◌else◌, Bool-cases, Option-cases, codes, length, ◌==◌,
}
use stayrtr.Prelude.Split.{split_on}
use stayrtr.Startup.Access.{
  SshFlags, SshServerConfig, has_key, key_text, ssh_password, ssh_keys, check_password, check_key,
  ssh_server_config,
}
use stayrtr.Startup.KeyLines.{HasNoFeed, EndsLine, has_key_iff}

-- Does the configuration take the password of the user? A method without a callback is not offered.
unfoldable pub takes_password : SshServerConfig → Text → Text → Bool
takes_password config user supplied = elim config.password_callback [
  | none ↦ false
  | some callback ↦ callback user supplied
]

-- Does the configuration take the key of the user?
unfoldable pub takes_key : SshServerConfig → Text → Text → Text → Bool
takes_key config user key_type key_base64 = elim config.public_key_callback [
  | none ↦ false
  | some callback ↦ callback user key_type key_base64
]

-- the fields of a configuration that is made in two steps, as run makes it
two-steps :
    (base config : SshServerConfig) (enabled : Bool) (keys : Option Text)
    → (check : Text → Text → Text → Text → Bool)
    → (if enabled
        then elim keys [
          | none ↦ none
          | some t ↦ some (record base { public_key_callback = some (check t) })
        ]
        else some base)
      ≡ some config
    → (config.password_callback ≡ base.password_callback)
      × (config.no_client_auth ≡ base.no_client_auth)
      × (config.public_key_callback ≡ (
          if enabled
          then elim keys [ none ↦ none | some t ↦ some (check t) ]
          else base.public_key_callback))
two-steps base config false keys check e =
    let same : config ≡ base = cc in
    (
      ap (λ c. c.password_callback) same,
      ap (λ c. c.no_client_auth) same,
      ap (λ c. c.public_key_callback) same,
    )
two-steps base config true none check e = absurd (cc)
two-steps base config true (some t) check e =
    let same : config ≡ record base { public_key_callback = some (check t) } = cc in
    (
      ap (λ c. c.password_callback) same,
      ap (λ c. c.no_client_auth) same,
      ap (λ c. c.public_key_callback) same,
    )

module _ (getenv : Text → Text) (read_file : Text → Option Text) where
  abbrev IsAllowed : SshFlags → Text → Type 0
  IsAllowed flags shown =
      (flags.enable_key ≡ true)
      × ((flags.keys_bypass ≡ true)
          ⊎ ((before rest : Text) × EndsLine before
              × (ssh_keys getenv read_file flags ≡ some (before ++ shown ++ rest))))

  key_text_iff :
      (key_type key_base64 t : Text)
      → HasNoFeed (key_text key_type key_base64)
      → (has_key (key_text key_type key_base64) (split_on 10 t) ≡ true) ↔ (
          (before rest : Text) × EndsLine before
          × (t ≡ before ++ key_text key_type key_base64 ++ rest))
  unfolding key_text
  key_text_iff [] key_base64 t h = has_key_iff 32 key_base64 h t
  key_text_iff (c ∷ key_type) key_base64 t h = has_key_iff c (key_type ++ (32 ∷ key_base64)) h t

  module _ (flags : SshFlags) (config : SshServerConfig)
      (made : ssh_server_config getenv read_file flags ≡ some config) where
    fields :
        (config.password_callback
          ≡ (if flags.enable_password then some (check_password getenv read_file flags) else none))
        × (config.no_client_auth ≡ not (flags.enable_key || flags.enable_password))
        × (config.public_key_callback ≡ (
            if flags.enable_key
            then elim (ssh_keys getenv read_file flags) [
              | none ↦ none
              | some t ↦ some (check_key getenv read_file flags (split_on 10 t))
            ]
            else none))
    unfolding ssh_server_config
    fields =
        two-steps _ config flags.enable_key (ssh_keys getenv read_file flags)
          (λ t. check_key getenv read_file flags (split_on 10 t)) made

    takes-password :
        (user supplied : Text)
        → (takes_password config user supplied ≡ true) ↔ (
            (flags.enable_password ≡ true)
            × (user ≡ flags.user)
            × (supplied ≡ ssh_password getenv read_file flags))
    unfolding takes_password check_password
    takes-password user supplied = elim (Bool-cases flags.enable_password) [
      | inl e ↦
          let eq : takes_password config user supplied
              ≡ check_password getenv read_file flags user supplied =
            rw (takes_password, fields.0, e) refl in
          ground (
            arith,
            e,
            eq,
            text_eq_iff user flags.user,
            text_eq_iff supplied (ssh_password getenv read_file flags),
          )
      | inr e ↦
          let eq : takes_password config user supplied ≡ false =
            rw (takes_password, fields.0, e) refl in
          ground (arith, e, eq)
    ]

    takes-key :
        (user key_type key_base64 : Text)
        → HasNoFeed (key_text key_type key_base64)
        → (takes_key config user key_type key_base64 ≡ true)
          ↔ IsAllowed flags (key_text key_type key_base64)
    unfolding takes_key check_key ssh_server_config ssh_keys
    takes-key user key_type key_base64 h = elim (Bool-cases flags.enable_key) [
      | inr e ↦
          let eq : takes_key config user key_type key_base64 ≡ false =
            rw (takes_key, fields.2, e) refl in
          ((λ k. absurd (cc)), λ (k, more). absurd (cc))
      | inl e ↦ elim (Option-cases (ssh_keys getenv read_file flags)) [
        | inl n ↦
            let gone : ssh_server_config getenv read_file flags ≡ none =
              rw (ssh_server_config, e, n) refl in
            absurd (cc)
        | inr (t, k) ↦ elim (Bool-cases flags.keys_bypass) [
          | inl b ↦
              let eq : takes_key config user key_type key_base64 ≡ true =
                rw (takes_key, fields.2, e, k, check_key, b) refl in
              ((λ x. (e, inl b)), λ x. eq)
          | inr b ↦
              let eq : takes_key config user key_type key_base64
                  ≡ has_key (key_text key_type key_base64) (split_on 10 t) =
                rw (takes_key, fields.2, e, k, check_key, b) refl in
              let (to, from) = key_text_iff key_type key_base64 t h in
              (
                (λ x.
                    let (before, rest, ends, same) = to (cc) in (e, inr (before, rest, ends, cc))),
                λ (on, x). elim x [
                  | inl y ↦ absurd (cc)
                  | inr (before, rest, ends, same) ↦ let k2 = from (before, rest, ends, cc) in cc
                ],
              )
        ]
      ]
    ]

    takes-anyone :
        (config.no_client_auth ≡ true)
        ↔ ((flags.enable_key ≡ false) × (flags.enable_password ≡ false))
    takes-anyone = ground (arith, fields.1)

  -- The password that the flags stand for: the one of the flag, or of the environment where the flag is
  -- empty.
  abbrev pub password_of : SshFlags → Text
  password_of flags =
      if length flags.password == 0 then getenv (codes "STAYRTR_SSH_PASSWORD") else flags.password

  -- The text with the keys that the flags stand for: that of the file, or of the environment where no
  -- file is named.
  abbrev pub keys_of : SshFlags → Option Text
  keys_of flags =
      if length flags.keys_list == 0
      then some (getenv (codes "STAYRTR_SSH_AUTHORIZEDKEYS"))
      else read_file flags.keys_list

  -- Is the key allowed: are keys read, and is each key taken or is this one at the start of a line?
  abbrev pub IsListed : SshFlags → Text → Type 0
  IsListed flags shown =
      (flags.enable_key ≡ true)
      × ((flags.keys_bypass ≡ true)
          ⊎ ((before rest : Text) × EndsLine before
              × (keys_of flags ≡ some (before ++ shown ++ rest))))

  -- Where run does not end the program over SSH: a password is taken just where the method is enabled,
  -- the user is the one of the flags, and the password is the one of the flag, or of the environment
  -- where the flag is empty; a key without a line feed is taken just where the method is enabled and
  -- each key is taken or this one is in the file, or in the environment where no file is named, at the
  -- start of a line; and anyone may connect just where neither method is enabled. The user has no part
  -- in what becomes of a key.
  pub ssh_server_config_takes :
      (flags : SshFlags) (config : SshServerConfig) (user supplied key_type key_base64 : Text)
      → ssh_server_config getenv read_file flags ≡ some config
      → HasNoFeed (key_text key_type key_base64)
      → ((takes_password config user supplied ≡ true)
          ↔ ((flags.enable_password ≡ true) × (user ≡ flags.user) × (supplied ≡ password_of flags)))
        × ((takes_key config user key_type key_base64 ≡ true)
            ↔ IsListed flags (key_text key_type key_base64))
        × ((config.no_client_auth ≡ true)
            ↔ ((flags.enable_key ≡ false) × (flags.enable_password ≡ false)))
  unfolding ssh_password ssh_keys
  ssh_server_config_takes flags config user supplied key_type key_base64 e h = (
    takes-password flags config e user supplied,
    takes-key flags config e user key_type key_base64 h,
    takes-anyone flags config e,
  )
