-- ===== src/Examples/Texts.antt =====
-- Runs of the functions on texts and headers.
use universal_crossplane.Base.{◌≡◌, refl, true, [], ◌∷◌}
use universal_crossplane.Base.Text.{trim_space, split, equal_fold, trim_prefix}
use universal_crossplane.Agent.Header.{canonical_key}

split_run : split b' ' (trim_space "  Bearer  abc ") ≡ "Bearer" ∷ "" ∷ "abc" ∷ []
unfolding split trim_space
split_run = refl

fold_run : equal_fold "BeArEr" "bearer" ≡ true
unfolding equal_fold
fold_run = refl

prefix_run : trim_prefix "controlPlane|id" "controlPlane|" ≡ "id"
unfolding trim_prefix
prefix_run = refl

other_prefix_run : trim_prefix "id" "controlPlane|" ≡ "id"
unfolding trim_prefix
other_prefix_run = refl

canonical_run : canonical_key "x-forwarded-for" ≡ "X-Forwarded-For"
unfolding canonical_key
canonical_run = refl
