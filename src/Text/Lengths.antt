-- ===== src/Text/Lengths.antt =====
-- The lengths of texts in runes and in bytes.
use be_pawfund.Prelude.{ℕ, suc, ◌≡◌, ◌≤◌, ◌+◌, refl, ap, [], ◌∷◌, map, arith, length}
use be_pawfund.Text.{Text, trim_space, trim_left, trim_right, keep_before, rune_count, byte_length}

pub rune_count-byte_length : (s : Text) → rune_count s ≤ byte_length s
unfolding byte_length
rune_count-byte_length [] = omega arith
rune_count-byte_length (c ∷ s) = ground (arith, rune_count-byte_length s)

-- Trimming makes a text no longer, and the lower case of a text is as long.
length-keep_before : (c : ℕ) (s : Text) → length (keep_before c s) ≤ length s + 1
length-keep_before c [] = ground arith
length-keep_before c (d ∷ s) = ground arith

length-trim_right : (s : Text) → length (trim_right s) ≤ length s
unfolding trim_right
length-trim_right [] = omega arith
length-trim_right (c ∷ s) =
    let k = length-keep_before c (trim_right s) in
    let r = length-trim_right s in omega (arith, k, r)

length-trim_left : (s : Text) → length (trim_left s) ≤ length s
unfolding trim_left
length-trim_left [] = omega arith
length-trim_left (c ∷ s) = ground (arith, length-trim_left s)

pub length-trim_space : (s : Text) → length (trim_space s) ≤ length s
unfolding trim_space
length-trim_space s =
    let a = length-trim_right (trim_left s) in let b = length-trim_left s in omega (arith, a, b)

pub length-map : (f : ℕ → ℕ) (s : Text) → length (map f s) ≡ length s
length-map f [] = refl
length-map f (c ∷ s) = ap suc (length-map f s)
