-- ===== src/Objects/Tests.antt =====
-- Instances and runs of the reference counts (src/object.c).
use swift_corelibs_libdispat.Common.{ℕ, ◌+◌, ◌^◌, ◌≤◌, ◌<◌, ◌≡◌, ◌≢◌, refl, arith, false}
use swift_corelibs_libdispat.Objects.{
  Object, global_refcnt, done, refused, crash, retain, released, release, retain_with_resurrect,
  retain_weak, retain_internal, release_internal, release_no_dispose, retain_count, System,
  releases, resurrects, retains_internal, releases_internal, finishes_resurrection,
  finishes_xref_dispose, call, share, MayCall, alloc, Reach, start, after,
}
use swift_corelibs_libdispat.Objects.Safety.{disposes_at_last, never_crashes, misuse_crashes}

-- The library retains the object, and the client releases its reference.
abbrev orphan : System
orphan = call releases (call (retains_internal 1) alloc)

orphan-Reach : Reach orphan
unfolding call retain_internal
orphan-Reach =
    after (after start (retains_internal 1) (omega arith, omega arith)) releases (omega arith)

-- While the disposal of the client's references is in progress, the object is resurrected.
abbrev resurrected : System
resurrected = call finishes_xref_dispose (call finishes_resurrection (call resurrects orphan))

resurrected-Reach : Reach resurrected
unfolding call retain_internal release released retain_with_resurrect
resurrected-Reach =
    after
      (after (after orphan-Reach resurrects (omega arith, omega arith)) finishes_resurrection
        (omega arith, omega arith))
      finishes_xref_dispose (omega arith)

-- Everything is released.
abbrev last : System
last = call (releases_internal 1) (call finishes_xref_dispose (call releases resurrected))

last-Reach : Reach last
unfolding call retain_internal release released retain_with_resurrect release_internal
last-Reach =
    after
      (after (after resurrected-Reach releases (omega arith)) finishes_xref_dispose (omega arith))
      (releases_internal 1) (omega arith, omega arith)

last_runs :
    (last.disposals ≡ 1)
    × (last.xrefs ≡ 0)
    × (last.refs ≡ 0)
    × (last.dying ≡ 0)
    × (resurrected.disposals ≡ 0)
unfolding call retain_internal release released retain_with_resurrect release_internal
last_runs = (refl, refl, refl, refl, refl)

disposes_at_last_example :
    (last.disposals ≤ 1)
    × (0 < last.xrefs + last.refs + last.dying → last.disposals ≡ 0)
    × (last.xrefs + last.refs + last.dying ≡ 0 → last.disposals ≡ 1)
disposes_at_last_example = disposes_at_last last-Reach

may_release : MayCall releases resurrected
unfolding call retain_internal release released retain_with_resurrect release_internal
may_release = omega arith

never_crashes_example : (call releases resurrected).crashed ≡ false
never_crashes_example = never_crashes resurrected-Reach releases may_release

misuse_crashes_example :
    (orphan.xrefs ≡ 0
      → (retain orphan.object ≡ crash)
        × (release orphan.object ≡ crash)
        × (retain_weak orphan.object ≡ refused))
    × (0 < orphan.xrefs → retain_weak orphan.object ≢ refused)
    × ((n : ℕ)
        → n < 2 ^ 31
        → orphan.disposals ≡ 0
        → orphan.refs + orphan.dying + share orphan.xrefs < orphan.resurrecting + n
        → release_internal n orphan.object ≡ crash)
    × (retain_count orphan.object ≡ orphan.xrefs)
misuse_crashes_example = misuse_crashes orphan-Reach

-- The counts of a global object stay, and a resurrection of it overflows.
abbrev global_object : Object
global_object = record { xref_cnt = global_refcnt; ref_cnt = global_refcnt }

global_stays :
    (retain global_object ≡ done global_object)
    × (release global_object ≡ done global_object)
    × (retain_internal 1 global_object ≡ done global_object)
    × (release_no_dispose 1 global_object ≡ done global_object)
    × (retain_with_resurrect global_object ≡ crash)
unfolding retain release released retain_internal release_no_dispose retain_with_resurrect
global_stays = (refl, refl, refl, refl, refl)
