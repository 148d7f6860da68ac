-- ===== src/Data/Tests.antt =====
-- Instances and runs of the operations on data objects (src/data.c).
use swift_corelibs_libdispat.Common.{ℕ, ◌≡◌, refl, arith, none, List, [], ◌∷◌, Bool, true}
use swift_corelibs_libdispat.Data.{
  size, ok, DispatchData, leaf, composite, nil, cons, create_subrange, apply_f, apply, copy_region,
}
use swift_corelibs_libdispat.Data.Bytes.{bytes, IsValid}
use swift_corelibs_libdispat.Data.Subrange.{create_subrange-bytes}
use swift_corelibs_libdispat.Data.Region.{IsAround, IsRegion, copy_region-IsAround}

abbrev abc : DispatchData
abc = leaf (1 ∷ 2 ∷ 3 ∷ [])

abbrev defg : DispatchData
defg = leaf (4 ∷ 5 ∷ 6 ∷ 7 ∷ [])

-- Bytes 2 to 5 of the concatenation of the two, twice over.
abbrev mixed : DispatchData
mixed = composite 6 none (cons abc 1 2 (cons defg 0 3 (cons abc 0 1 nil)))

mixed-IsValid : IsValid mixed
mixed-IsValid = omega arith

create_subrange-bytes_example :
    (r : DispatchData) × (create_subrange mixed 1 3 ≡ ok r) × IsValid r × (bytes r ≡ 3 ∷ 4 ∷ 5 ∷ [])
create_subrange-bytes_example = create_subrange-bytes mixed 1 3 mixed-IsValid

abbrev collect : List ℕ → DispatchData → ℕ → List ℕ → List ℕ × Bool
collect seen region offset buffer = (offset ∷ seen, true)

copy_region-IsAround_example :
    (r : DispatchData) × (offset : ℕ) × (copy_region mixed 4 ≡ ok (r, offset))
    × IsAround (bytes mixed) 4 r offset
    × IsRegion mixed offset (size r)
copy_region-IsAround_example = copy_region-IsAround mixed 4 mixed-IsValid (omega arith)

run_subrange : create_subrange mixed 1 3 ≡ ok (composite 3 none (cons abc 2 1 (cons defg 0 2 nil)))
unfolding create_subrange
run_subrange = refl

run_apply : apply_f collect mixed [] ≡ (5 ∷ 2 ∷ 0 ∷ [], true)
unfolding apply_f apply
run_apply = refl

run_region : copy_region mixed 4 ≡ ok (composite 3 none (cons defg 0 3 nil), 2)
unfolding copy_region
run_region = refl
