-- ===== src/Objects/Invariant.antt =====
-- The invariant of the reference counts (src/object.c, src/inline_internal.h).
use swift_corelibs_libdispat.Common.{
  ℕ, ◌+◌, ◌^◌, ◌≤◌, ◌<◌, ◌≡◌, ◌⊎◌, inl, inr, refl, arith, true, false, ◌==◌,
}
use swift_corelibs_libdispat.Objects.{System, share, minus_one, alloc}

-- The client's count is one less than its references. So is that of the library, the client's share
-- and the disposals in progress included, and but for a resurrection that has not retained yet; at the
-- last reference the object is disposed of.
pub record Inv (s : System) : Type 0 where
  pub sound : s.crashed ≡ false
  pub one_resurrection : s.resurrecting ≤ 1
  pub resurrected : s.resurrecting ≤ s.xrefs
  pub pinned : s.resurrecting ≤ s.refs
  pub external :
      (s.xrefs ≡ 0) × (s.object.xref_cnt ≡ minus_one)
      ⊎ (0 < s.xrefs) × (s.object.xref_cnt + 1 ≡ s.xrefs) × (s.xrefs < 2 ^ 31)
  pub internal :
      (s.object.ref_cnt + 1 + s.resurrecting ≡ s.refs + s.dying + share s.xrefs)
        × (s.object.ref_cnt + 1 < 2 ^ 31)
        × (s.disposals ≡ 0)
      ⊎ (s.refs + s.dying + share s.xrefs ≡ 0) × (s.object.ref_cnt ≡ minus_one) × (s.disposals ≡ 1)

pub share_zero : (n : ℕ) → n ≡ 0 → share n ≡ 0
share_zero n z = let t : (n == 0) ≡ true = ground arith in rw t refl

pub share_one : (n : ℕ) → 0 < n → share n ≡ 1
share_one n h = let t : (n == 0) ≡ false = ground arith in rw t refl

pub alloc-Inv : Inv alloc
alloc-Inv = record {
  sound = refl;
  one_resurrection = omega arith;
  resurrected = omega arith;
  pinned = omega arith;
  external = inr (omega arith, omega arith, omega arith);
  internal = inl (omega arith, omega arith, refl);
}
