-- ===== src/Core/Resource/Detail.antt =====
-- What the engine is told of each key.
use pulumi_rs_provider_gcpx.Base.{
  ◌≡◌, refl, Bool, List, [], ◌∷◌, any, arith, none, some, Text, text_eq, text_eq_iff, if◌then◌else◌,
}
use pulumi_rs_provider_gcpx.Core.Resource.{
  DiffResult, Kind, update, update_replace, insert, lookup, insert_all, build_diff_response,
}

lookup-insert :
    (k j : Text) (v : Kind) (m : List (Text × Kind))
    → lookup j (insert k v m) ≡ (if text_eq k j then some v else lookup j m)
unfolding lookup insert
lookup-insert k j v [] = refl
lookup-insert k j v ((i, w) ∷ m) =
    ground (arith, text_eq_iff k j, text_eq_iff i k, text_eq_iff i j, lookup-insert k j v m)

-- Whether a key is listed.
abbrev pub lists : Text → List Text → Bool
lists j = any (λ k. text_eq k j)

lookup-insert_all :
    (ks : List Text) (j : Text) (v : Kind) (m : List (Text × Kind))
    → lookup j (insert_all ks v m) ≡ (if lists j ks then some v else lookup j m)
unfolding insert_all
lookup-insert_all [] j v m = refl
lookup-insert_all (k ∷ ks) j v m =
    ground (arith, lookup-insert_all ks j v (insert k v m), lookup-insert k j v m)

-- The detailed diff reports a key as an update if it is an update key, else as a replacement if
-- it is a replace key, and holds no other key.
pub lookup-build_diff_response :
    (d : DiffResult) (j : Text)
    → lookup j (build_diff_response d).detailed_diff ≡ (
        if lists j d.update_keys
        then some update
        else if lists j d.replace_keys
        then some update_replace
        else none)
unfolding build_diff_response lookup
lookup-build_diff_response d j = ground (
  arith,
  lookup-insert_all d.update_keys j update (insert_all d.replace_keys update_replace []),
  lookup-insert_all d.replace_keys j update_replace [],
)
