-- ===== src/Agents/Chat/Chunks.antt =====
-- The boundaries of chunks do not matter, and the buffer is bounded (crates/gcpx-agents/src/chat.rs).
use pulumi_rs_provider_gcpx.Base.{
  ℕ, ◌≡◌, refl, ap, sym, subst, ◌∙◌, Bool, true, false, List, [], ◌∷◌, ◌++◌, append_assoc, Option,
  if◌then◌else◌, Result, ok, err, arith, Bool-cases, inl, inr,
}
use pulumi_rs_provider_gcpx.Agents.Chat.{
  FrameParser, ChatError, frame_too_large, push_byte, with_values, push_bytes, push_chunk,
}

if_true : {A : Type 0} (b : Bool) (x y : A) → b ≡ true → (if b then x else y) ≡ x
if_true true x y h = refl
if_true false x y h = ground (arith, h)

if_false : {A : Type 0} (b : Bool) (x y : A) → b ≡ false → (if b then x else y) ≡ y
if_false true x y h = ground (arith, h)
if_false false x y h = refl

module _ {V : Type 0} (parse : List ℕ → Option V) where
  -- A second push after a first one, as a single call reports them: an error takes the place of all
  -- values.
  abbrev and_push :
      FrameParser × Result (List V) ChatError
      → (FrameParser → FrameParser × Result (List V) ChatError)
      → FrameParser × Result (List V) ChatError
  and_push (p, err e) next = (p, err e)
  and_push (p, ok vs) next = with_values parse vs (next p)

  with_values-append :
      (vs ws : List V) (r : FrameParser × Result (List V) ChatError)
      → with_values parse vs (with_values parse ws r) ≡ with_values parse (vs ++ ws) r
  with_values-append vs ws (p, ok us) = ap (λ t. (p, ok t)) (sym (append_assoc vs ws us))
  with_values-append vs ws (p, err e) = refl

  and_push-with_values :
      (vs : List V) (r : FrameParser × Result (List V) ChatError)
      (next : FrameParser → FrameParser × Result (List V) ChatError)
      → and_push (with_values parse vs r) next ≡ with_values parse vs (and_push r next)
  and_push-with_values vs (p, ok ws) next = sym (with_values-append vs ws (next p))
  and_push-with_values vs (p, err e) next = refl

  no_values : (r : FrameParser × Result (List V) ChatError) → with_values parse [] r ≡ r
  no_values (p, ok ws) = refl
  no_values (p, err e) = refl

  shut_lem :
      (p : FrameParser) (a : List ℕ)
      → p.overflowed ≡ true
      → push_chunk parse p a ≡ (p, err frame_too_large)
  unfolding push_chunk
  shut_lem p a h = if_true p.overflowed (p, err frame_too_large) (push_bytes parse p a) h

  open_lem :
      (p : FrameParser) (a : List ℕ)
      → p.overflowed ≡ false
      → push_chunk parse p a ≡ push_bytes parse p a
  unfolding push_chunk
  open_lem p a h = if_false p.overflowed (p, err frame_too_large) (push_bytes parse p a) h

  push_bytes-append :
      (a b : List ℕ) (p : FrameParser)
      → p.overflowed ≡ false
      → push_bytes parse p (a ++ b) ≡ and_push (push_bytes parse p a) (λ q. push_chunk parse q b)
  unfolding push_bytes
  push_bytes-append [] b p h =
      sym (no_values (push_bytes parse p b)) ∙ ap (with_values parse []) (sym (open_lem p b h))
  push_bytes-append (c ∷ a) b p h = elim (Bool-cases (push_byte parse p c).0.overflowed) [
    | inl large ↦ rw large refl
    | inr small ↦ rw small (
        ap (with_values parse (push_byte parse p c).1)
          (push_bytes-append a b (push_byte parse p c).0 small)
        ∙ sym (
            and_push-with_values (push_byte parse p c).1
              (push_bytes parse (push_byte parse p c).0 a) (λ q. push_chunk parse q b)))
  ]

  push_chunk-and_push :
      (p : FrameParser) (a b : List ℕ)
      → push_chunk parse p (a ++ b) ≡ and_push (push_chunk parse p a) (λ q. push_chunk parse q b)
  push_chunk-and_push p a b = elim (Bool-cases p.overflowed) [
    | inl large ↦
        shut_lem p (a ++ b) large
        ∙ sym (ap (λ r. and_push r (λ q. push_chunk parse q b)) (shut_lem p a large))
    | inr small ↦
        open_lem p (a ++ b) small
        ∙ push_bytes-append a b p small
        ∙ sym (ap (λ r. and_push r (λ q. push_chunk parse q b)) (open_lem p a small))
  ]

  -- The parser that gave an error gives it from then on.
  abbrev IsShut : FrameParser × Result (List V) ChatError → Type 0
  IsShut (p, ok vs) = Unit
  IsShut (p, err frame_too_large) = p.overflowed ≡ true

  with_values-IsShut :
      (vs : List V) (r : FrameParser × Result (List V) ChatError)
      → IsShut r
      → IsShut (with_values parse vs r)
  with_values-IsShut vs (p, ok ws) h = tt
  with_values-IsShut vs (p, err frame_too_large) h = h

  push_bytes-IsShut : (a : List ℕ) (p : FrameParser) → IsShut (push_bytes parse p a)
  unfolding push_bytes
  push_bytes-IsShut [] p = tt
  push_bytes-IsShut (c ∷ a) p = elim (Bool-cases (push_byte parse p c).0.overflowed) [
    | inl large ↦ rw large large
    | inr small ↦ rw small (
        with_values-IsShut (push_byte parse p c).1 (push_bytes parse (push_byte parse p c).0 a)
          (push_bytes-IsShut a (push_byte parse p c).0))
  ]

  push_chunk-IsShut : (p : FrameParser) (a : List ℕ) → IsShut (push_chunk parse p a)
  push_chunk-IsShut p a = elim (Bool-cases p.overflowed) [
    | inl large ↦ subst IsShut (sym (shut_lem p a large)) large
    | inr small ↦ subst IsShut (sym (open_lem p a small)) (push_bytes-IsShut a p)
  ]

  -- What two calls in a row report, as one: the values of both, or an error.
  abbrev pub both_results :
      Result (List V) ChatError → Result (List V) ChatError → Result (List V) ChatError
  both_results (ok vs) (ok ws) = ok (vs ++ ws)
  both_results (ok vs) (err e) = err e
  both_results (err e) r = err e

  after_first :
      (b : List ℕ) (r : FrameParser × Result (List V) ChatError)
      → IsShut r
      → ((and_push r (λ q. push_chunk parse q b)).0 ≡ (push_chunk parse r.0 b).0)
        × ((and_push r (λ q. push_chunk parse q b)).1 ≡ both_results r.1 (push_chunk parse r.0 b).1)
  after_first b (p, err frame_too_large) h = (sym (ap (λ r. r.0) (shut_lem p b h)), refl)
  after_first b (p, ok vs) h = joined (push_chunk parse p b)
    where
      joined :
          (r : FrameParser × Result (List V) ChatError)
          → ((with_values parse vs r).0 ≡ r.0)
            × ((with_values parse vs r).1 ≡ both_results (ok vs) r.1)
      joined (q, ok ws) = (refl, refl)
      joined (q, err e) = (refl, refl)

  -- Pushing a chunk leaves the parser that pushing its two parts, one after the other, leaves,
  -- wherever it is cut. It returns the values of the first part and then those of the second where
  -- both parts are pushed without an error, and the error where either gives one: the values that
  -- the first part completed are then not returned.
  pub push_chunk-append :
      (p : FrameParser) (a b : List ℕ)
      → ((push_chunk parse p (a ++ b)).0 ≡ (push_chunk parse (push_chunk parse p a).0 b).0)
        × ((push_chunk parse p (a ++ b)).1
            ≡ both_results (push_chunk parse p a).1 (push_chunk parse (push_chunk parse p a).0 b).1)
  push_chunk-append p a b =
      rw (push_chunk-and_push p a b) (after_first b (push_chunk parse p a) (push_chunk-IsShut p a))
