-- ===== src/Sanitize/Trim.antt =====
-- String.prototype.trim, as src/utils/sanitize.ts and the schemas use it.
use react_websocket_chat.Prelude.{
  ◌≤◌, ◌≡◌, refl, ap, ◌∙◌, Bool, true, false, [], ◌∷◌, arith, length, if◌then◌else◌,
}
use react_websocket_chat.Sanitize.{Text, is_space, trim_start, trim_end, trim}

-- No white space at the head.
abbrev starts_plain : Text → Bool
starts_plain [] = true
starts_plain (c ∷ s) = if is_space c then false else true

trim_start-plain : (s : Text) → starts_plain (trim_start s) ≡ true
unfolding trim_start
trim_start-plain [] = refl
trim_start-plain (c ∷ s) = ground (arith, trim_start-plain s)

trim_start_of_plain : (s : Text) → starts_plain s ≡ true → trim_start s ≡ s
unfolding trim_start
trim_start_of_plain [] h = refl
trim_start_of_plain (c ∷ s) h = ground arith

trim_end-plain : (s : Text) → starts_plain s ≡ true → starts_plain (trim_end s) ≡ true
unfolding trim_end
trim_end-plain [] h = refl
trim_end-plain (c ∷ s) h = ground arith

trim_end_idempotent : (s : Text) → trim_end (trim_end s) ≡ trim_end s
unfolding trim_end
trim_end_idempotent [] = refl
trim_end_idempotent (c ∷ s) = ground (arith, trim_end_idempotent s)

-- Trimming a trimmed text changes nothing.
pub trim_idempotent : (s : Text) → trim (trim s) ≡ trim s
unfolding trim
trim_idempotent s =
    let t : Text = trim_end (trim_start s) in
    ap trim_end (trim_start_of_plain t (trim_end-plain (trim_start s) (trim_start-plain s)))
    ∙ trim_end_idempotent (trim_start s)

length-trim_start : (s : Text) → length (trim_start s) ≤ length s
unfolding trim_start
length-trim_start [] = omega arith
length-trim_start (c ∷ s) = ground (arith, length-trim_start s)

length-trim_end : (s : Text) → length (trim_end s) ≤ length s
unfolding trim_end
length-trim_end [] = omega arith
length-trim_end (c ∷ s) = ground (arith, length-trim_end s)

pub length-trim : (s : Text) → length (trim s) ≤ length s
unfolding trim
length-trim s = omega (arith, length-trim_start s, length-trim_end (trim_start s))
