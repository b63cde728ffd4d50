-- ===== src/Net/Addresses.antt =====
-- The lengths of addresses.
use stayrtr.Prelude.{
  ℕ, ◌≡◌, refl, ◌≢◌, arith, List, Option, none, some, length, length-append, length-drop,
}
use stayrtr.Net.{to4, to16, v4_in_v6_prefix, ip_bytes}

pub to4_length : (ip four : List ℕ) → to4 ip ≡ some four → length four ≡ 4
unfolding to4
to4_length ip four h = ground (arith, length-drop 12 ip)

pub to16_length : (ip sixteen : List ℕ) → to16 ip ≡ some sixteen → length sixteen ≡ 16
unfolding to16
to16_length ip sixteen h = ground (arith, length-append v4_in_v6_prefix ip)

pub ip_bytes_length :
    (k : ℕ) (o : Option (List ℕ))
    → ((l : List ℕ) → o ≡ some l → length l ≡ k)
    → o ≢ none
    → length (ip_bytes o) ≡ k
ip_bytes_length k none h n = absurd (n refl)
ip_bytes_length k (some l) h n = h l refl
