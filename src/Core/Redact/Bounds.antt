-- ===== src/Core/Redact/Bounds.antt =====
-- How the scrubbing loop ends: never by the fuel, with a panic on some messages, and with no
-- bound on what it prints.
use pulumi_rs_provider_gcpx.Base.{
  ℕ, zero, suc, ◌*◌, ◌≤◌, ◌<◌, ◌≡◌, refl, ◌≢◌, ap, ◌∙◌, Bool, true, false, [], ◌∷◌, ◌++◌,
  append_assoc, append-nil, done, panicked, stuck, arith, length, All, drop, take, Text, codes,
  ◌==◌, utf8_len, byte_len, contains,
}
use pulumi_rs_provider_gcpx.Core.Redact.{
  Redacted, placeholder, credential_run_len, has_marker, bearer_at, redact_loop, redact,
  is_credential,
}

length-drop_le : (n : ℕ) (s : Text) → length (drop n s) ≤ length s
length-drop_le zero s = omega arith
length-drop_le (suc n) [] = omega arith
length-drop_le (suc n) (x ∷ s) = omega (arith, length-drop_le n s)

length-drop_run : (c : ℕ) (s : Text) → length (drop (credential_run_len (c ∷ s)) (c ∷ s)) ≤ length s
length-drop_run c s = go (credential_run_len (c ∷ s)) (unfold credential_run_len in omega arith)
  where
    go : (n : ℕ) → 1 ≤ n → length (drop n (c ∷ s)) ≤ length s
    go zero h = elim h [ ]
    go (suc n) h = length-drop_le n s

redact_loop-ne-stuck :
    (fuel : ℕ) (out : Text) (after : Bool) (m : Text)
    → length m < fuel
    → redact_loop fuel out after m ≢ stuck
unfolding redact_loop
redact_loop-ne-stuck zero out after m h = elim h [ ]
redact_loop-ne-stuck (suc f) out after [] h = λ e. cc
redact_loop-ne-stuck (suc f) out after (c ∷ s) h = ground (
  arith,
  redact_loop-ne-stuck f (out ++ placeholder) false (drop (credential_run_len (c ∷ s)) (c ∷ s)),
  redact_loop-ne-stuck f (out ++ take 6 (c ∷ s)) true (drop 6 (c ∷ s)),
  redact_loop-ne-stuck f (out ++ c ∷ []) after s,
  length-drop_run c s,
  length-drop_le 5 s,
)

-- The scrubbing loop always ends: the message's length plus one is fuel enough.
pub redact-ne-stuck : (m : Text) → redact m ≢ stuck
unfolding redact
redact-ne-stuck m = ground (arith, redact_loop-ne-stuck (suc (length m)) [] false m)

abbrev pub IsAscii : Text → Type 0
IsAscii = All (λ c. c < 128)

drop-IsAscii : (n : ℕ) (s : Text) → IsAscii s → IsAscii (drop n s)
drop-IsAscii zero s h = h
drop-IsAscii (suc n) [] h = h
drop-IsAscii (suc n) (x ∷ s) h = drop-IsAscii n s h.1

utf8_len_ascii : (c : ℕ) → c < 128 → (utf8_len c == 1) ≡ true
utf8_len_ascii c h = ground arith

redact_loop-ne-panicked :
    (fuel : ℕ) (out : Text) (after : Bool) (m : Text)
    → IsAscii m
    → redact_loop fuel out after m ≢ panicked
unfolding redact_loop
redact_loop-ne-panicked zero out after m h = λ e. cc
redact_loop-ne-panicked (suc f) out after [] h = λ e. cc
redact_loop-ne-panicked (suc f) out after (c ∷ s) h =
    let m = c ∷ s in
    ground (
      arith,
      redact_loop-ne-panicked f (out ++ placeholder) false (drop (credential_run_len m) m)
          (drop-IsAscii (credential_run_len m) m h),
      redact_loop-ne-panicked f (out ++ take 6 m) true (drop 6 m) (drop-IsAscii 6 m h),
      redact_loop-ne-panicked f (out ++ c ∷ []) after s h.1,
      utf8_len_ascii c h.0,
    )

redact-ne-panicked : (m : Text) → IsAscii m → redact m ≢ panicked
unfolding redact
redact-ne-panicked m h = ground (arith, redact_loop-ne-panicked (suc (length m)) [] false m h)

-- `redact` returns a text for every message of ASCII characters: its loop ends, and no slice of
-- it panics.
pub redact_ascii : (m : Text) → IsAscii m → (out : Text) × (redact m ≡ done out)
redact_ascii m h = from (redact m) (redact-ne-stuck m) (redact-ne-panicked m h)
  where
    from : (r : Redacted) → r ≢ stuck → r ≢ panicked → (out : Text) × (r ≡ done out)
    from (done out) p q = (out, refl)
    from panicked p q = absurd (q refl)
    from stuck p q = absurd (p refl)

has_marker_wide : (c : ℕ) (s : Text) → 128 ≤ c → has_marker (c ∷ s) ≡ false
unfolding has_marker
has_marker_wide c s h = ground arith

is_credential_wide : (c : ℕ) → 128 ≤ c → is_credential c ≡ false
unfolding is_credential
is_credential_wide c h = ground arith

wide_value :
    (fuel c : ℕ) (out s : Text) → 128 ≤ c → redact_loop (suc fuel) out true (c ∷ s) ≡ panicked
unfolding redact_loop
wide_value fuel c out s h = ground (arith, has_marker_wide c s h, is_credential_wide c h)

-- `redact` panics on `Bearer `, and so on every message that goes on with a character outside
-- ASCII and holds no key material: the scrubbed run is taken to be one byte long, and the next
-- slice starts inside that character.
pub redact_wide_bearer :
    (c : ℕ) (s : Text)
    → 128 ≤ c
    → contains (codes "-----BEGIN") (codes "Bearer " ++ c ∷ s) ≡ false
    → redact (codes "Bearer " ++ c ∷ s) ≡ panicked
unfolding redact redact_loop has_marker bearer_at byte_len
redact_wide_bearer c s h k =
    rw k (wide_value (length (codes "Bearer" ++ s)) c (codes "Bearer ") s h)

-- A text written `n` times.
abbrev pub repeat : ℕ → Text → Text
repeat zero t = []
repeat (suc n) t = t ++ repeat n t

contains-repeat : (n : ℕ) → contains (codes "-----BEGIN") (repeat n (codes "Bearer\"")) ≡ false
unfolding contains
contains-repeat zero = refl
contains-repeat (suc n) = contains-repeat n

redact_loop-repeat :
    (n fuel : ℕ) (out : Text)
    → n * 2 < fuel
    → redact_loop fuel out false (repeat n (codes "Bearer\""))
      ≡ done (out ++ repeat n (codes "Bearer[redacted]"))
unfolding redact_loop has_marker bearer_at credential_run_len is_credential
redact_loop-repeat zero zero out h = absurd (omega arith)
redact_loop-repeat zero (suc f) out h = rw append-nil
redact_loop-repeat (suc n) zero out h = absurd (omega arith)
redact_loop-repeat (suc n) (suc zero) out h = absurd (omega arith)
redact_loop-repeat (suc n) (suc (suc f)) out h =
    redact_loop-repeat n f ((out ++ codes "Bearer") ++ placeholder) (omega arith)
    ∙ ap done (simp append_assoc)

length-repeat : (n : ℕ) → n * 2 ≤ length (repeat n (codes "Bearer\""))
length-repeat zero = omega arith
length-repeat (suc n) = omega (arith, length-repeat n)

byte_len-repeat : (n : ℕ) → byte_len (repeat n (codes "Bearer[redacted]")) ≡ n * 16
unfolding byte_len
byte_len-repeat zero = refl
byte_len-repeat (suc n) = omega (arith, byte_len-repeat n)

-- The cap of 512 bytes does not hold: on the text `Bearer"` written `n` times `redact` returns
-- `Bearer[redacted]` written `n` times, which is 16 * `n` bytes long.
pub redact-repeat :
    (n : ℕ)
    → (redact (repeat n (codes "Bearer\"")) ≡ done (repeat n (codes "Bearer[redacted]")))
      × (byte_len (repeat n (codes "Bearer[redacted]")) ≡ n * 16)
unfolding redact
redact-repeat n = (
  rw (contains-repeat n) (redact_loop-repeat n _ [] (omega (arith, length-repeat n))),
  byte_len-repeat n,
)
