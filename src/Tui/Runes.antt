-- ===== src/Tui/Runes.antt =====
-- `utf8.DecodeRune` of Go's standard library, on bytes: what key.go uses of it.
use kubeagent.Prelude.{ℕ, ◌+◌, ◌*◌, ◌%◌, Bool, ◌&&◌, List, [], ◌∷◌, leb, ltb, eqb, if◌then◌else◌}

-- U+FFFD, and the widest encoding.
abbrev pub rune_error : ℕ
rune_error = 65533

abbrev pub utf_max : ℕ
utf_max = 4

abbrev pub between : ℕ → ℕ → ℕ → Bool
between lo hi c = leb lo c && leb c hi

-- Any continuation byte.
abbrev pub continues : ℕ → Bool
continues c = between 128 191 c

-- The second byte that may follow a lead byte of three or four: no overlong form, no surrogate and
-- nothing above U+10FFFF.
abbrev pub second_of : ℕ → ℕ → Bool
second_of lead c =
    if eqb lead 224
    then between 160 191 c
    else if eqb lead 237
    then between 128 159 c
    else if eqb lead 240
    then between 144 191 c
    else if eqb lead 244
    then between 128 143 c
    else continues c

abbrev pub invalid : ℕ × ℕ
invalid = (rune_error, 1)

-- The rune of two, three and four bytes.
unfoldable pub decode_two : ℕ → List ℕ → ℕ × ℕ
decode_two lead [] = invalid
decode_two lead (b ∷ bs) = if continues b then (lead % 32 * 64 + b % 64, 2) else invalid

unfoldable pub decode_three : ℕ → List ℕ → ℕ × ℕ
decode_three lead [] = invalid
decode_three lead (b ∷ []) = invalid
decode_three lead (b ∷ c ∷ bs) =
    if second_of lead b && continues c
    then (lead % 16 * 4096 + b % 64 * 64 + c % 64, 3)
    else invalid

unfoldable pub decode_four : ℕ → List ℕ → ℕ × ℕ
decode_four lead [] = invalid
decode_four lead (b ∷ []) = invalid
decode_four lead (b ∷ c ∷ []) = invalid
decode_four lead (b ∷ c ∷ d ∷ bs) =
    if second_of lead b && (continues c && continues d)
    then (lead % 8 * 262144 + b % 64 * 4096 + c % 64 * 64 + d % 64, 4)
    else invalid

-- The rune at the front and its width: (U+FFFD, 0) of nothing, (U+FFFD, 1) of an invalid encoding.
unfoldable pub decode_rune : List ℕ → ℕ × ℕ
unfolding decode_two decode_three decode_four
decode_rune [] = (rune_error, 0)
decode_rune (lead ∷ bs) =
    if ltb lead 128
    then (lead, 1)
    else if between 194 223 lead
    then decode_two lead bs
    else if between 224 239 lead
    then decode_three lead bs
    else if between 240 244 lead
    then decode_four lead bs
    else invalid
