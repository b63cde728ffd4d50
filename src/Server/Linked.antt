-- ===== src/Server/Linked.antt =====
-- The invariant of the cache: how the serials, the diffs and the map between them hang together.
use stayrtr.Prelude.{
  ℕ, suc, ◌+◌, ◌-◌, ◌≤◌, ◌<◌, ◌≡◌, ◌≢◌, ap, arith, false, Option, none, some, length, ltb,
  if◌then◌else◌, u32, nat_eq, lookup,
}
use stayrtr.Prelude.Int.{ℤ, pos}
use stayrtr.Server.{Server, generate_serial, remove_count}
use stayrtr.Server.Serials.{serials, steps, length-serials, last-serials}

-- The index that the map has for a serial that is `d` steps after the first of `n`.
abbrev pub index_for : ℕ → ℕ → Option ℤ
index_for d n = if ltb d n then some (pos (suc d)) else none

-- `count` consecutive serials are kept, from `start` on, as many diffs as serials, at most one more
-- than `keep_diff`; the current serial is the last of them; and the map leads every other serial
-- that is kept to the diff behind its own, and has no entry for any further serial.
pub record IsLinked (s : Server) : Type 0 where
  pub start : ℕ
  pub count : ℕ
  pub start_fits : start < 4294967296
  pub keep_positive : 0 < s.keep_diff
  pub keep_bounded : s.keep_diff < 2147483648
  pub automatic : s.manualserial ≡ false
  pub list : s.vrp_list_serial ≡ serials start count
  pub bounded : count ≤ s.keep_diff + 1
  pub diffs : length s.vrp_list_diff ≡ count
  pub current : s.vrp_current_serial ≡ u32 (start + (count - 1))
  pub entries :
      (serial : ℕ)
      → serial < 4294967296
      → serial ≢ s.vrp_current_serial
      → lookup serial s.vrp_map_serial ≡ index_for (steps start serial) count

module _ {s : Server} (linked : IsLinked s) where
  open linked use {start, count}

  -- the serial of the next update
  pub generate_serial-IsLinked : generate_serial s ≡ u32 (start + count)
  unfolding generate_serial
  generate_serial-IsLinked =
      rw (linked.list, length-serials)
        (ground
          (arith, linked.automatic, linked.current, last-serials count start linked.start_fits))

  pub remove_count-IsLinked : remove_count s ≡ (if ltb count (s.keep_diff + 1) then 0 else 1)
  unfolding remove_count
  remove_count-IsLinked =
      ground (arith, linked.list, ap length linked.list, length-serials count start)
