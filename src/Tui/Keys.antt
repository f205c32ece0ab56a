-- ===== src/Tui/Keys.antt =====
-- internal/tui/key.go: decoding the first key of a run of bytes.
use kubeagent.Prelude.{
  ℕ, ◌/◌, ◌%◌, Bool, true, false, not, ◌&&◌, ◌||◌, List, [], ◌∷◌, leb, eqb, if◌then◌else◌, length,
}
use kubeagent.Tui.{KeyKind, Press}
use kubeagent.Tui.Runes.{rune_error, utf_max, decode_rune}

abbrev pub plain : KeyKind → Press
plain kind = record { rune = 0; kind = kind }

-- `Key{}`, the zero value: its kind is the first one.
abbrev pub no_key : Press
no_key = plain KeyKind.key_rune

-- The third byte of an arrow key.
unfoldable pub arrow : ℕ → KeyKind
arrow c =
    if eqb c 65
    then KeyKind.key_up
    else if eqb c 66
    then KeyKind.key_down
    else if eqb c 67
    then KeyKind.key_right
    else if eqb c 68
    then KeyKind.key_left
    else KeyKind.key_unknown

-- `decodeEsc`, on the bytes after the escape.
unfoldable pub decode_esc : List ℕ → Bool → Press × ℕ
unfolding arrow
decode_esc [] final = if final then (plain KeyKind.key_esc, 1) else (no_key, 0)
decode_esc (b ∷ []) final =
    if not (eqb b 91)
    then (plain KeyKind.key_esc, 2)
    else if final
    then (plain KeyKind.key_unknown, 2)
    else (no_key, 0)
decode_esc (b ∷ c ∷ bs) final =
    if not (eqb b 91) then (plain KeyKind.key_esc, 2) else (plain (arrow c), 3)

-- How many bytes the lead byte asks for; 0 is no lead byte of a longer rune.
unfoldable pub wanted : ℕ → ℕ
wanted lead =
    if leb 194 lead && leb lead 223
    then 2
    else if leb 224 lead && leb lead 239
    then 3
    else if leb 240 lead && leb lead 244
    then 4
    else 0

-- `c&0xC0 == 0x80`.
abbrev pub is_continuation : ℕ → Bool
is_continuation c = eqb (c / 64 % 4) 2

unfoldable pub all_continue : List ℕ → Bool
all_continue [] = true
all_continue (c ∷ cs) = is_continuation c && all_continue cs

-- `runePrefix`.
unfoldable pub rune_prefix : List ℕ → Bool
unfolding wanted all_continue length
rune_prefix [] = false
rune_prefix (lead ∷ bs) =
    if leb utf_max (length (lead ∷ bs))
    then false
    else if eqb (wanted lead) 0
    then false
    else if leb (wanted lead) (length (lead ∷ bs))
    then false
    else all_continue bs

-- The last part of `decodeKey`, by what `DecodeRune` answered.
unfoldable pub rune_key : List ℕ → Bool → ℕ × ℕ → Press × ℕ
unfolding rune_prefix
rune_key b final (r, n) =
    if eqb r rune_error && leb n 1
    then if not final && rune_prefix b then (no_key, 0) else (plain KeyKind.key_unknown, 1)
    else (record { rune = r; kind = KeyKind.key_rune }, n)

-- `decodeKey`.
unfoldable pub decode_key : List ℕ → Bool → Press × ℕ
unfolding decode_esc rune_key decode_rune
decode_key [] final = (no_key, 0)
decode_key (c ∷ b) final =
    if eqb c 3
    then (plain KeyKind.key_ctrl_c, 1)
    else if eqb c 13 || eqb c 10
    then (plain KeyKind.key_enter, 1)
    else if eqb c 27
    then decode_esc b final
    else rune_key (c ∷ b) final (decode_rune (c ∷ b))
