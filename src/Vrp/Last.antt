-- ===== src/Vrp/Last.antt =====
-- The entry of a list that a key leads to: the last one, as in the map that the list is made into.
use stayrtr.Prelude.{
  ◌≡◌, refl, arith, Option, none, some, List, [], ◌∷◌, ◌++◌, Text, text_eq, if◌then◌else◌, GoMap,
  text_keys, insert, lookup, lookup-insert,
}
use stayrtr.Net.{IpNet}
use stayrtr.Vrp.{Vrp, hash_key, convert_loop, convert_vrp_list_to_map}

abbrev pub or_else : Option Vrp → Option Vrp → Option Vrp
or_else (some v) o = some v
or_else none o = o

module _ (ipnet_string : IpNet → Text) where
  unfoldable pub last_with : Text → List Vrp → Option Vrp
  last_with k [] = none
  last_with k (v ∷ l) =
      or_else (last_with k l) (if text_eq (hash_key ipnet_string v) k then some v else none)

  pub last_with-append :
      (k : Text) (xs ys : List Vrp)
      → last_with k (xs ++ ys) ≡ or_else (last_with k ys) (last_with k xs)
  unfolding last_with
  last_with-append k [] ys = ground arith
  last_with-append k (x ∷ xs) ys = ground (arith, last_with-append k xs ys)

  lookup-convert_loop :
      (k : Text) (m : GoMap Text Vrp) (l : List Vrp)
      → lookup k (convert_loop ipnet_string m l) ≡ or_else (last_with k l) (lookup k m)
  unfolding convert_loop last_with
  lookup-convert_loop k m [] = refl
  lookup-convert_loop k m (v ∷ l) =
      let j = hash_key ipnet_string v in
      ground (arith, lookup-convert_loop k (insert j v m) l, lookup-insert j k v m)

  -- The map that ConvertVRPListToMap makes leads each key to the last entry of the list that has it.
  pub lookup-convert :
      (k : Text) (l : List Vrp) → lookup k (convert_vrp_list_to_map ipnet_string l) ≡ last_with k l
  unfolding convert_vrp_list_to_map lookup
  lookup-convert k l = ground (arith, lookup-convert_loop k [] l)
