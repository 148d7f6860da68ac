-- ===== src/Objects/Safety.antt =====
-- What the reference counts promise (src/object.c, src/inline_internal.h).
use swift_corelibs_libdispat.Common.{ℕ, ◌+◌, ◌^◌, ◌≤◌, ◌<◌, ◌≡◌, ◌≢◌, arith, false}
use swift_corelibs_libdispat.Objects.{
  refused, crash, retain, released, release, retain_weak, release_internal, retain_count, System,
  Call, call, share, MayCall, Reach, start, after,
}
use swift_corelibs_libdispat.Objects.Invariant.{Inv, alloc-Inv}
use swift_corelibs_libdispat.Objects.Steps.{call-Inv}

pub Reach-Inv : {s : System} → Reach s → Inv s
Reach-Inv start = alloc-Inv
Reach-Inv (after {s} r c m) = call-Inv c s m (Reach-Inv r)

-- However the calls of the client and of the library interleave, the object is disposed of at most once,
-- namely when the last reference of either has gone: while there is one, or an external disposal is in
-- progress, it has not been disposed of, and when there is none it has.
pub disposes_at_last :
    {s : System}
    → Reach s
    → (s.disposals ≤ 1)
      × (0 < s.xrefs + s.refs + s.dying → s.disposals ≡ 0)
      × (s.xrefs + s.refs + s.dying ≡ 0 → s.disposals ≡ 1)
disposes_at_last {s = s} r = let v = Reach-Inv r in ground arith

-- No call whose caller has the references that it gives back, or one to retain by, crashes: neither as
-- an over-release nor as a resurrection of the object.
pub never_crashes : {s : System} → Reach s → (c : Call) → MayCall c s → (call c s).crashed ≡ false
never_crashes r c m = (Reach-Inv (after r c m)).sound

-- A client with no reference left crashes when it retains or releases the object, and a weak
-- retain is refused; with references it is granted. Releasing more references of the library than there
-- are crashes while the object has not been disposed of. The retain count is the number of the client's
-- references.
pub misuse_crashes :
    {s : System}
    → Reach s
    → (s.xrefs ≡ 0
        → (retain s.object ≡ crash) × (release s.object ≡ crash) × (retain_weak s.object ≡ refused))
      × (0 < s.xrefs → retain_weak s.object ≢ refused)
      × ((n : ℕ)
          → n < 2 ^ 31
          → s.disposals ≡ 0
          → s.refs + s.dying + share s.xrefs < s.resurrecting + n
          → release_internal n s.object ≡ crash)
      × (retain_count s.object ≡ s.xrefs)
unfolding retain release retain_weak released release_internal
misuse_crashes {s = s} r =
    let v = Reach-Inv r in
    (
      λ z. (ground arith, ground arith, ground arith),
      λ h. ground arith,
      λ n few alive over. ground arith,
      ground arith,
    )
