-- ===== src/Net/Masks.antt =====
-- The masks that CIDRMask builds.
use stayrtr.Prelude.{
  Bool-cases, inl, inr, ℕ, zero, suc, ◌≤◌, ◌≡◌, refl, Bool, true, ◌&&◌, arith, ◌==◌, ==_iff,
}
use stayrtr.Net.{cidr_mask, mask_size}

-- does CIDRMask build a mask of the wanted size, for each size up to `top`?
right_up_to : ℕ → ℕ → Bool
right_up_to bits zero = mask_size (cidr_mask 0 bits) == 0
right_up_to bits (suc top) =
    right_up_to bits top && (mask_size (cidr_mask (suc top) bits) == suc top)

right_at :
    (bits top ones : ℕ)
    → right_up_to bits top ≡ true
    → ones ≤ top
    → mask_size (cidr_mask ones bits) ≡ ones
unfolding right_up_to
right_at bits zero zero right below = ground arith
right_at bits zero (suc ones) right below = absurd (omega arith)
right_at bits (suc top) ones right below = elim (Bool-cases (ones == suc top)) [
  | inl same ↦
      let e : ones ≡ suc top = ground arith in
      rw e (ground (arith, ==_iff (mask_size (cidr_mask (suc top) bits)) (suc top)))
  | inr other ↦ right_at bits top ones (ground arith) (ground arith)
]

right32 : right_up_to 32 32 ≡ true
unfolding right_up_to mask_size cidr_mask
right32 = refl

right128 : right_up_to 128 128 ≡ true
unfolding right_up_to mask_size cidr_mask
right128 = refl

pub mask_size-cidr_mask32 : (n : ℕ) → n ≤ 32 → mask_size (cidr_mask n 32) ≡ n
mask_size-cidr_mask32 n h = right_at 32 32 n right32 h

pub mask_size-cidr_mask128 : (n : ℕ) → n ≤ 128 → mask_size (cidr_mask n 128) ≡ n
mask_size-cidr_mask128 n h = right_at 128 128 n right128 h
