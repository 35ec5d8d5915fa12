-- ===== src/Dbt/Config/Entries.antt =====
-- The arguments of a config block are read to the end (crates/gcpx-dbt/src/scanner.rs).
use pulumi_rs_provider_gcpx.Base.{
  ℕ, zero, suc, ◌≤◌, ◌<◌, ◌≡◌, refl, ap, List, [], ◌∷◌, Option, none, some, Text, length,
  if◌then◌else◌, strip_prefix, starts_with, split_once, split_on, drop, trim, trim_le, arith,
  Bool-cases, inl, inr, IsCut, IsPrefix, split_once-IsCut, strip_prefix-IsPrefix, cut_shorter,
}
use pulumi_rs_provider_gcpx.Dbt.Templates.{extract_single_quoted}
use pulumi_rs_provider_gcpx.Dbt.Config.{
  ConfigValue, ConfigEntry, str, list, dict, behind_comma, read_all, key_value, up_to, word_value,
  read_value, next_entry, entries, config_entries,
}

-- What is left behind an entry is at most `n` characters long.
abbrev IsShortRest : ℕ → Option (ConfigEntry × Text) → Type 0
IsShortRest n none = Unit
IsShortRest n (some p) = length p.1 ≤ n

behind_comma_le : (s : Text) → length (behind_comma s) ≤ length s
unfolding behind_comma
behind_comma_le s =
    from (strip_prefix (b',' ∷ []) (trim s)) (strip_prefix-IsPrefix (b',' ∷ []) (trim s))
  where
    from :
        (o : Option Text)
        → IsPrefix (b',' ∷ []) (trim s) o
        → length (elim o [ none ↦ trim (trim s) | some t ↦ trim t ]) ≤ length s
    from none h = omega (arith, trim_le s, trim_le (trim s))
    from (some t) h = omega (arith, trim_le s, trim_le t, ap length h)

up_to-IsShortRest :
    (value : Text → ConfigValue) (key p s : Text) (o : Option (Text × Text))
    → IsCut p s o
    → IsShortRest (length s) (up_to value key o)
up_to-IsShortRest value key p s none h = tt
up_to-IsShortRest value key p s (some q) h = omega (arith, behind_comma_le q.1, cut_shorter p s q h)

le-IsShortRest :
    (n m : ℕ) (o : Option (ConfigEntry × Text)) → n ≤ m → IsShortRest n o → IsShortRest m o
le-IsShortRest n m none h k = tt
le-IsShortRest n m (some p) h k = omega arith

word-IsShortRest :
    (key s : Text) (o : Option (Text × Text))
    → IsCut (b',' ∷ []) s o
    → IsShortRest (length s) (elim o [
      | some q ↦ some (record { key = key; value = word_value (trim q.0) }, trim q.1)
      | none ↦ some (record { key = key; value = word_value (trim s) }, [])
    ])
word-IsShortRest key s none h = omega arith
word-IsShortRest key s (some q) h = omega (arith, trim_le q.1, cut_shorter (b',' ∷ []) s q h)

read_value-IsShortRest : (key s : Text) → IsShortRest (length s) (read_value key s)
unfolding read_value
read_value-IsShortRest key s = from (strip_prefix (39 ∷ []) s) (strip_prefix-IsPrefix (39 ∷ []) s)
  where
    from :
        (o : Option Text)
        → IsPrefix (39 ∷ []) s o
        → IsShortRest (length s) (elim o [
          | some stripped ↦ up_to str key (split_once (39 ∷ []) stripped)
          | none ↦
              (if starts_with (b'{' ∷ []) s
                then up_to
                    (λ t. dict (read_all key_value (split_on b',' (drop 1 t))))
                    key
                    (split_once (b'}' ∷ []) s)
                else if starts_with (b'[' ∷ []) s
                then up_to
                    (λ t.
                      list
                        (read_all (λ u. extract_single_quoted (trim u)) (split_on b',' (drop 1 t))))
                    key
                    (split_once (b']' ∷ []) s)
                else (elim (split_once (b',' ∷ []) s) [
                  | some q ↦ some (record { key = key; value = word_value (trim q.0) }, trim q.1)
                  | none ↦ some (record { key = key; value = word_value (trim s) }, [])
                ]))
        ])
    from (some t) h =
        le-IsShortRest (length t) (length s) _ (omega (arith, ap length h))
          (up_to-IsShortRest str key (39 ∷ []) t _ (split_once-IsCut (39 ∷ []) t))
    from none h = elim (Bool-cases (starts_with (b'{' ∷ []) s)) [
      | inl e ↦ rw e (up_to-IsShortRest _ key (b'}' ∷ []) s _ (split_once-IsCut (b'}' ∷ []) s))
      | inr e ↦ elim (Bool-cases (starts_with (b'[' ∷ []) s)) [
        | inl f ↦
            rw (e, f) (up_to-IsShortRest _ key (b']' ∷ []) s _ (split_once-IsCut (b']' ∷ []) s))
        | inr f ↦ rw (e, f) (word-IsShortRest key s _ (split_once-IsCut (b',' ∷ []) s))
      ]
    ]

abbrev IsShorterRest : ℕ → Option (ConfigEntry × Text) → Type 0
IsShorterRest n none = Unit
IsShorterRest n (some p) = length p.1 < n

shorter-IsShorterRest :
    (n m : ℕ) (o : Option (ConfigEntry × Text)) → n < m → IsShortRest n o → IsShorterRest m o
shorter-IsShorterRest n m none h k = tt
shorter-IsShorterRest n m (some p) h k = omega arith

next_entry-IsShorterRest : (s : Text) → IsShorterRest (length s) (next_entry s)
unfolding next_entry
next_entry-IsShorterRest [] = tt
next_entry-IsShorterRest (c ∷ s) =
    from (split_once (b'=' ∷ []) (c ∷ s)) (split_once-IsCut (b'=' ∷ []) (c ∷ s))
  where
    from :
        (o : Option (Text × Text))
        → IsCut (b'=' ∷ []) (c ∷ s) o
        → IsShorterRest
            (length (c ∷ s))
            (elim o [ none ↦ none | some p ↦ read_value (trim p.0) (trim p.1) ])
    from none h = tt
    from (some p) h =
        shorter-IsShorterRest (length (trim p.1)) (length (c ∷ s))
          (read_value (trim p.0) (trim p.1))
          (omega (arith, trim_le p.1, cut_shorter (b'=' ∷ []) (c ∷ s) p h))
          (read_value-IsShortRest (trim p.0) (trim p.1))

entries_end :
    (fuel : ℕ) (s : Text) → length s < fuel → (xs : List ConfigEntry) × (entries fuel s ≡ some xs)
unfolding entries
entries_end zero s h = elim h [ ]
entries_end (suc fuel) s h =
    from (next_entry s) (next_entry-IsShorterRest s) (λ t l. entries_end fuel t (omega arith))
  where
    from :
        (o : Option (ConfigEntry × Text))
        → IsShorterRest (length s) o
        → ((t : Text) → length t < length s → (xs : List ConfigEntry) × (entries fuel t ≡ some xs))
        → (xs : List ConfigEntry) × (elim o [
          | none ↦ some []
          | some p ↦ elim (entries fuel p.1) [ none ↦ none | some rest ↦ some (p.0 ∷ rest) ]
        ]
            ≡ some xs)
    from none l ih = ([], refl)
    from (some p) l ih = let (xs, k) = ih p.1 l in (p.0 ∷ xs, rw k refl)

-- The iterator comes to the end of every text in a config block.
pub config_entries_end : (s : Text) → (xs : List ConfigEntry) × (config_entries s ≡ some xs)
unfolding config_entries
config_entries_end s = entries_end (suc (length s)) (trim s) (omega (arith, trim_le s))
