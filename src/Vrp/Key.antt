-- ===== src/Vrp/Key.antt =====
-- The key of a VRP and the method Equals (lib/server.go, HashKey).
use stayrtr.Prelude.{ℕ, ◌<◌, ◌≡◌, ◌↔◌, arith, ap, ◌∙◌, true, Text, text_eq_iff}
use stayrtr.Prelude.Decimal.{HasNoDash, decimal_inj, decimal-HasNoDash, dash_inj}
use stayrtr.Net.{IpNet}
use stayrtr.Vrp.{Vrp, equals, hash_key}

fields_of :
    (v w : Vrp)
    → equals v w ≡ true
    → (v.max_len ≡ w.max_len)
      × (v.asn ≡ w.asn)
      × (v.prefix.ip ≡ w.prefix.ip)
      × (v.prefix.mask ≡ w.prefix.mask)
unfolding equals
fields_of v w e =
    let (ips, _) = text_eq_iff v.prefix.ip w.prefix.ip in
    let (masks, _) = text_eq_iff v.prefix.mask w.prefix.mask in
    (ground (arith, e), ground (arith, e), ips (ground (arith, e)), masks (ground (arith, e)))

module _ (ipnet_string : IpNet → Text) where
  -- The fields that a key has, in the ranges that they have.
  abbrev pub IsKeyed : Vrp → Type 0
  IsKeyed v = HasNoDash (ipnet_string v.prefix) × (v.max_len < 4294967296) × (v.asn < 4294967296)

  hash_key_inj :
      (v w : Vrp)
      → IsKeyed v
      → IsKeyed w
      → hash_key ipnet_string v ≡ hash_key ipnet_string w
      → (ipnet_string v.prefix ≡ ipnet_string w.prefix) × (v.max_len ≡ w.max_len) × (v.asn ≡ w.asn)
  unfolding hash_key
  hash_key_inj v w (p, m, a) (p', m', a') e =
      let (prefixes, lengths) = dash_inj _ _ _ _ p p' e in
      let (max_lens, asns) =
        dash_inj _ _ _ _ (decimal-HasNoDash v.max_len) (decimal-HasNoDash w.max_len) lengths in
      (prefixes, decimal_inj _ _ m m' max_lens, decimal_inj _ _ a a' asns)

  -- Two VRPs with fields of 32 bits are equal for Equals exactly if they have the same key. This is of
  -- prefixes that are printed without a dash, and of two that are the same if they are printed alike.
  equals-hash_key :
      (v w : Vrp)
      → IsKeyed v
      → IsKeyed w
      → (ipnet_string v.prefix ≡ ipnet_string w.prefix → v.prefix ≡ w.prefix)
      → (equals v w ≡ true) ↔ (hash_key ipnet_string v ≡ hash_key ipnet_string w)
  unfolding equals hash_key
  equals-hash_key v w kv kw printed = (
    λ e.
        let (max_lens, asns, ips, masks) = fields_of v w e in
        ap (λ ip. key (record { ip = ip; mask = v.prefix.mask }) v.max_len v.asn) ips
        ∙ ap (λ mask. key (record { ip = w.prefix.ip; mask = mask }) v.max_len v.asn) masks
        ∙ ap (λ n. key w.prefix n v.asn) max_lens
        ∙ ap (λ n. key w.prefix w.max_len n) asns,
    λ e.
        let (prefixes, max_lens, asns) = hash_key_inj v w kv kw e in
        let same : v.prefix ≡ w.prefix = printed prefixes in
        ground (
          arith,
          max_lens,
          asns,
          (text_eq_iff v.prefix.ip w.prefix.ip).1 (ap (λ n. n.ip) same),
          (text_eq_iff v.prefix.mask w.prefix.mask).1 (ap (λ n. n.mask) same),
        ),
  )
    where
      key : IpNet → ℕ → ℕ → Text
      key prefix max_len asn =
          hash_key ipnet_string
            (record { prefix = prefix; max_len = max_len; asn = asn; flags = 0 })
