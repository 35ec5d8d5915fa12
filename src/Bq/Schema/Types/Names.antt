-- ===== src/Bq/Schema/Types/Names.antt =====
-- Which column names the reserved-prefix test can be called on.
use pulumi_rs_provider_gcpx.Base.{
  ℕ, zero, suc, ◌+◌, ◌-◌, ◌≤◌, ◌<◌, ◌≡◌, refl, Bool, true, false, ◌||◌, List, [], ◌∷◌, All, all,
  arith, Bool-cases, inl, inr, some, Text, utf8_len, byte_len, eq_ignore_case, le→leb, leb, ◌==◌,
  is_alphanumeric, done, panicked, if◌then◌else◌,
}
use pulumi_rs_provider_gcpx.Bq.Schema.Types.{
  is_valid_name, has_reserved_prefix, reserved_from, reserved_prefixes, byte_prefix,
}

abbrev IsAscii : Text → Type 0
IsAscii = All (λ c. c < 128)

all-IsAscii : (s : Text) → all (λ c. is_alphanumeric c || c == b'_') s ≡ true → IsAscii s
all-IsAscii [] h = tt
all-IsAscii (c ∷ s) h = (ground arith, all-IsAscii s (ground arith))

-- A valid column name is ASCII, and at most 300 bytes long.
is_valid_name-IsAscii : (s : Text) → is_valid_name s ≡ true → IsAscii s × (byte_len s ≤ 300)
unfolding is_valid_name
is_valid_name-IsAscii [] h = cc
is_valid_name-IsAscii (c ∷ s) h = ((ground arith, all-IsAscii s (ground arith)), ground arith)

byte_prefix_step :
    (c : ℕ) (s : Text) (n : ℕ) (q : Text)
    → utf8_len c ≡ 1
    → byte_prefix (suc n - utf8_len c) s ≡ some q
    → byte_prefix (suc n) (c ∷ s) ≡ some (c ∷ q)
unfolding byte_prefix
byte_prefix_step c s n q one e = ground (arith, e)

byte_prefix_ascii :
    (s : Text) (n : ℕ) → IsAscii s → n ≤ byte_len s → (q : Text) × (byte_prefix n s ≡ some q)
unfolding byte_prefix byte_len
byte_prefix_ascii s zero h l = ([], refl)
byte_prefix_ascii [] (suc n) h l = absurd (omega arith)
byte_prefix_ascii (c ∷ s) (suc n) h l =
    let one : utf8_len c ≡ 1 = ground arith in
    let (q, e) = byte_prefix_ascii s n h.1 (omega arith) in
    let d : suc n - utf8_len c ≡ n = omega arith in (c ∷ q, byte_prefix_step c s n q one (rw d e))

reserved_from_ascii :
    (ps : List Text) (s : Text) → IsAscii s → (b : Bool) × (reserved_from ps s ≡ done b)
unfolding reserved_from
reserved_from_ascii [] s h = (false, refl)
reserved_from_ascii (p ∷ ps) s h =
    let (b, e) = reserved_from_ascii ps s h in
    elim (Bool-cases (leb (byte_len p) (byte_len s))) [
      | inl l ↦
          let (q, f) = byte_prefix_ascii s (byte_len p) h (ground arith) in
          (if eq_ignore_case q p then true else b, ground (arith, l, e, f))
      | inr l ↦ (b, rw l e)
    ]

-- A valid column name is ASCII and at most 300 bytes long, and the reserved-prefix test answers
-- on it.
pub is_valid_name-has_reserved_prefix :
    (name : Text)
    → is_valid_name name ≡ true
    → All (λ c. c < 128) name
      × (byte_len name ≤ 300)
      × ((b : Bool) × (has_reserved_prefix name ≡ done b))
unfolding has_reserved_prefix
is_valid_name-has_reserved_prefix name h =
    let (ascii, short) = is_valid_name-IsAscii name h in
    (ascii, short, reserved_from_ascii reserved_prefixes name ascii)

three_bytes : (c : ℕ) → 0x800 ≤ c → c < 0x10000 → utf8_len c ≡ 3
three_bytes c h k = ground arith

-- The reserved-prefix test panics on every name that begins with three characters of three bytes
-- each: the first prefix is seven bytes long, and byte 7 stands inside the third character.
pub has_reserved_prefix_wide :
    (a b c : ℕ) (s : Text)
    → 0x800 ≤ a
    → a < 0x10000
    → 0x800 ≤ b
    → b < 0x10000
    → 0x800 ≤ c
    → c < 0x10000
    → has_reserved_prefix (a ∷ b ∷ c ∷ s) ≡ panicked
unfolding has_reserved_prefix byte_len
has_reserved_prefix_wide a b c s ha ha' hb hb' hc hc' =
    rw (three_bytes a ha ha', three_bytes b hb hb', three_bytes c hc hc')
      (rw (le→leb 7 (3 + (3 + (3 + byte_len s))) (omega arith)))
