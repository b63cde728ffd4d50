-- ===== src/Diff/Lookup.antt =====
-- What the loops of ComputeDiff and ApplyDiff leave for one key.
use stayrtr.Prelude.{
  ℕ, ◌≡◌, arith, Option, none, some, List, [], ◌∷◌, Text, text_eq_iff, if◌then◌else◌, GoMap,
  text_keys, lookup, All,
}
use stayrtr.Net.{IpNet}
use stayrtr.Vrp.{Vrp, hash_key}
use stayrtr.Vrp.Last.{last_with}
use stayrtr.Diff.{added_loop, removed_loop, kept_loop, emits, emit_loop}

-- An entry, with its flag replaced.
abbrev pub flagged : ℕ → Option Vrp → Option Vrp
flagged f none = none
flagged f (some v) = some (record v { flags = f })

-- `a` where the other option is empty.
abbrev pub unless : Option Vrp → Option Vrp → Option Vrp
unless none a = a
unless (some w) a = none

-- What ApplyDiff leaves of the diff's entry and the previous entry for a key.
abbrev pub merged : Option Vrp → Option Vrp → Option Vrp
merged none p = p
merged (some v) p = if emits v.flags p then some v else none

module _ (ipnet_string : IpNet → Text) where
  -- every entry of the list that has the key `k` has the flag `f`
  abbrev pub AllFlag : Text → ℕ → List Vrp → Type 0
  AllFlag k f l = All (λ v. hash_key ipnet_string v ≡ k → v.flags ≡ f) l

  pub last_with-added_loop :
      (k : Text) (m : GoMap Text Vrp) (l : List Vrp)
      → last_with ipnet_string k (added_loop ipnet_string m l)
        ≡ unless (lookup k m) (flagged 1 (last_with ipnet_string k l))
  unfolding added_loop last_with hash_key
  last_with-added_loop k m [] = ground arith
  last_with-added_loop k m (v ∷ l) =
      ground (arith, last_with-added_loop k m l, text_eq_iff (hash_key ipnet_string v) k)

  pub last_with-removed_loop :
      (k : Text) (m : GoMap Text Vrp) (l : List Vrp)
      → last_with ipnet_string k (removed_loop ipnet_string m l).0
        ≡ unless (lookup k m) (flagged 0 (last_with ipnet_string k l))
  unfolding removed_loop last_with hash_key
  last_with-removed_loop k m [] = ground arith
  last_with-removed_loop k m (v ∷ l) =
      ground (arith, last_with-removed_loop k m l, text_eq_iff (hash_key ipnet_string v) k)

  pub last_with-unchanged :
      (k : Text) (m : GoMap Text Vrp) (l : List Vrp)
      → last_with ipnet_string k (removed_loop ipnet_string m l).1
        ≡ unless (unless (lookup k m) (last_with ipnet_string k l)) (last_with ipnet_string k l)
  unfolding removed_loop last_with
  last_with-unchanged k m [] = ground arith
  last_with-unchanged k m (v ∷ l) =
      ground (arith, last_with-unchanged k m l, text_eq_iff (hash_key ipnet_string v) k)

  pub last_with-kept_loop :
      (k : Text) (m : GoMap Text Vrp) (l : List Vrp)
      → last_with ipnet_string k (kept_loop ipnet_string m l)
        ≡ unless (lookup k m) (last_with ipnet_string k l)
  unfolding kept_loop last_with
  last_with-kept_loop k m [] = ground arith
  last_with-kept_loop k m (v ∷ l) =
      ground (arith, last_with-kept_loop k m l, text_eq_iff (hash_key ipnet_string v) k)

  pub last_with-emit_loop :
      (k : Text) (f : ℕ) (m : GoMap Text Vrp) (l : List Vrp)
      → AllFlag k f l
      → last_with ipnet_string k (emit_loop ipnet_string m l)
        ≡ (if emits f (lookup k m) then last_with ipnet_string k l else none)
  unfolding emit_loop last_with
  last_with-emit_loop k f m [] h = ground arith
  last_with-emit_loop k f m (v ∷ l) (hv, hl) =
      ground (arith, hv, last_with-emit_loop k f m l hl, text_eq_iff (hash_key ipnet_string v) k)

  -- the entry found has the key and the flag
  pub last_with-AllFlag :
      (k : Text) (f : ℕ) (l : List Vrp) (v : Vrp)
      → AllFlag k f l
      → last_with ipnet_string k l ≡ some v
      → v.flags ≡ f
  unfolding last_with
  last_with-AllFlag k f [] v h e = cc
  last_with-AllFlag k f (w ∷ l) v (hw, hl) e =
      ground (arith, hw, last_with-AllFlag k f l v hl, text_eq_iff (hash_key ipnet_string w) k)
