-- ===== src/Core/Resource/Exact.antt =====
-- From a diff without changes back to the comparisons behind it.
use pulumi_rs_provider_gcpx.Base.{
  ◌≡◌, refl, Bool, true, false, List, [], ◌∷◌, All, arith, is_empty, Text,
}
use pulumi_rs_provider_gcpx.Core.Resource.{has_changes, pushed}

-- No comparison found a change.
abbrev pub AllSame : List (Bool × Text) → Type 0
AllSame = All (λ c. c.0 ≡ false)

pub pushed_same : (cs : List (Bool × Text)) → is_empty (pushed cs) ≡ true → AllSame cs
unfolding pushed
pushed_same [] h = tt
pushed_same ((true, k) ∷ cs) h = cc
pushed_same ((false, k) ∷ cs) h = (refl, pushed_same cs h)

pub same_pushed : (cs : List (Bool × Text)) → AllSame cs → pushed cs ≡ []
unfolding pushed
same_pushed [] h = refl
same_pushed ((true, k) ∷ cs) h = absurd (ground (arith, h.0))
same_pushed ((false, k) ∷ cs) h = same_pushed cs h.1

pub has_changes_same :
    (rs us : List (Bool × Text))
    → has_changes (record { replace_keys = pushed rs; update_keys = pushed us }) ≡ false
    → AllSame rs × AllSame us
unfolding has_changes
has_changes_same rs us h = (pushed_same rs (ground arith), pushed_same us (ground arith))

pub same_has_changes :
    (rs us : List (Bool × Text))
    → AllSame rs
    → AllSame us
    → has_changes (record { replace_keys = pushed rs; update_keys = pushed us }) ≡ false
unfolding has_changes
same_has_changes rs us h k = rw (same_pushed rs h, same_pushed us k)
