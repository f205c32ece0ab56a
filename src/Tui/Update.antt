-- ===== src/Tui/Update.antt =====
-- internal/tui/model.go: `Update` and what it is composed of.
use kubeagent.Prelude.{
  ℕ, zero, suc, Bool, true, false, ◌||◌, List, [], ◌∷◌, Option, none, some, keep, drop, leb, eqb,
  length, if◌then◌else◌,
}
use kubeagent.Prelude.Int.{ℤ, pos, negsuc, ◌+ℤ◌, ◌-ℤ◌, ltb_ℤ}
use kubeagent.Findings.{Level, rank, Finding}
use kubeagent.Tui.{
  KeyKind, Press, Mode, mode_list, mode_detail, mode_blind, mode_help, Filter, filter_all,
  filter_warning, filter_critical, Model, Event, event_key, event_resize, event_scanned,
}
use kubeagent.Tui.Keys.{decode_key}

abbrev pub leb_ℤ : ℤ → ℤ → Bool
leb_ℤ a b = if ltb_ℤ b a then false else true

-- `toggle`.
abbrev pub toggle : Mode → Mode → Mode
toggle mode_list want = elim want [
  | mode_list ↦ mode_list
  | mode_detail ↦ mode_detail
  | mode_blind ↦ mode_blind
  | mode_help ↦ mode_help
]
toggle mode_detail want = elim want [
  | mode_list ↦ mode_list
  | mode_detail ↦ mode_list
  | mode_blind ↦ mode_blind
  | mode_help ↦ mode_help
]
toggle mode_blind want = elim want [
  | mode_list ↦ mode_list
  | mode_detail ↦ mode_detail
  | mode_blind ↦ mode_list
  | mode_help ↦ mode_help
]
toggle mode_help want = elim want [
  | mode_list ↦ mode_list
  | mode_detail ↦ mode_detail
  | mode_blind ↦ mode_blind
  | mode_help ↦ mode_list
]

-- The findings that a filter lets through.
unfoldable pub passing : Filter → List Finding → List Finding
unfolding keep
passing filter_all all = all
passing filter_warning all = keep (λ f. leb (rank Level.warning) (rank f.level)) all
passing filter_critical all = keep (λ f. leb (rank Level.critical) (rank f.level)) all

-- `if m.Mode == ModeDetail { m.Mode = ModeList }`.
abbrev pub leave_detail : Mode → Mode
leave_detail mode_list = mode_list
leave_detail mode_detail = mode_list
leave_detail mode_blind = mode_blind
leave_detail mode_help = mode_help

-- The guard of `openDetail`: the list is on screen and is not empty.
abbrev pub open_on : Mode → List Finding → Mode
open_on mode_list [] = mode_list
open_on mode_list (f ∷ fs) = mode_detail
open_on mode_detail fs = mode_detail
open_on mode_blind fs = mode_blind
open_on mode_help fs = mode_help

-- The rules of `clamp` one by one, for a list of `n` findings and a window of `rows`.
abbrev pub below_end : ℤ → ℤ → ℤ
below_end n cursor = if leb_ℤ n cursor then n -ℤ pos 1 else cursor

abbrev pub not_negative : ℤ → ℤ
not_negative i = if ltb_ℤ i (pos 0) then pos 0 else i

abbrev pub at_least_one : ℤ → ℤ
at_least_one rows = if ltb_ℤ rows (pos 1) then pos 1 else rows

abbrev pub up_to_cursor : ℤ → ℤ → ℤ
up_to_cursor cursor top = if ltb_ℤ cursor top then cursor else top

abbrev pub down_to_cursor : ℤ → ℤ → ℤ → ℤ
down_to_cursor rows cursor top = if leb_ℤ (top +ℤ rows) cursor then cursor -ℤ rows +ℤ pos 1 else top

abbrev pub filled : ℤ → ℤ → ℤ → ℤ
filled n rows top = if ltb_ℤ (n -ℤ rows) top then n -ℤ rows else top

unfoldable pub clamp_cursor : ℤ → ℤ → ℤ
clamp_cursor n cursor = not_negative (below_end n cursor)

unfoldable pub clamp_top : ℤ → ℤ → ℤ → ℤ → ℤ
unfolding ◌+ℤ◌ ◌-ℤ◌
clamp_top n rows cursor top =
    not_negative (filled n rows (down_to_cursor rows cursor (up_to_cursor cursor top)))

module _ {Health : Type 0} where
  -- `visible`.
  unfoldable pub visible : Model Health → List Finding
  unfolding passing
  visible m = passing m.filter m.all

  -- `listRows`.
  unfoldable pub list_rows : Model Health → ℤ
  list_rows m = m.height -ℤ pos 6

  unfoldable pub clamp_to : List Finding → Model Health → Model Health
  unfolding clamp_cursor clamp_top list_rows length
  clamp_to [] m = record m { cursor = pos 0; top = pos 0; mode = leave_detail m.mode }
  clamp_to (f ∷ fs) m =
      let n = pos (length (f ∷ fs)) in
      let cursor = clamp_cursor n m.cursor in
      record m { cursor = cursor; top = clamp_top n (at_least_one (list_rows m)) cursor m.top }

  -- `clamp`.
  unfoldable pub clamp : Model Health → Model Health
  unfolding visible clamp_to
  clamp m = clamp_to (visible m) m

  -- `move`.
  unfoldable pub move : Model Health → ℤ → Model Health
  unfolding clamp
  move m delta = clamp (record m { cursor = m.cursor +ℤ delta })

  -- `openDetail`.
  unfoldable pub open_detail : Model Health → Model Health
  unfolding visible
  open_detail m = record m { mode = open_on m.mode (visible m) }

  abbrev pub stop : Model Health → Model Health
  stop m = record m { quit = true }

  abbrev pub to_list : Model Health → Model Health
  to_list m = record m { mode = mode_list }

  -- `updateRune`, by the code of the rune.
  unfoldable pub update_rune : Model Health → ℕ → Model Health
  unfolding move open_detail clamp
  update_rune m r =
      if eqb r 113
      then stop m
      else if eqb r 106
      then move m (pos 1)
      else if eqb r 107
      then move m (negsuc 0)
      else if eqb r 108
      then open_detail m
      else if eqb r 104
      then to_list m
      else if eqb r 103
      then clamp (record m { cursor = pos 0 })
      else if eqb r 71
      then clamp (record m { cursor = pos (length (visible m)) -ℤ pos 1 })
      else if eqb r 49
      then clamp (record m { filter = filter_critical })
      else if eqb r 50
      then clamp (record m { filter = filter_warning })
      else if eqb r 48 || eqb r 97
      then clamp (record m { filter = filter_all })
      else if eqb r 98
      then record m { mode = toggle m.mode mode_blind }
      else if eqb r 63
      then record m { mode = toggle m.mode mode_help }
      else if eqb r 114
      then record m { scanning = true }
      else m

  -- `updateKey`, by the kind of the key.
  unfoldable pub update_kind : Model Health → KeyKind → ℕ → Model Health
  unfolding move open_detail update_rune
  update_kind m KeyKind.key_ctrl_c r = stop m
  update_kind m KeyKind.key_up r = move m (negsuc 0)
  update_kind m KeyKind.key_down r = move m (pos 1)
  update_kind m KeyKind.key_enter r = open_detail m
  update_kind m KeyKind.key_right r = open_detail m
  update_kind m KeyKind.key_esc r = to_list m
  update_kind m KeyKind.key_left r = to_list m
  update_kind m KeyKind.key_rune r = update_rune m r
  update_kind m KeyKind.key_unknown r = m

  unfoldable pub update_key : Model Health → Press → Model Health
  unfolding update_kind
  update_key m k = update_kind m k.kind k.rune

  -- `Update`.
  unfoldable pub update : Model Health → Event Health → Model Health
  unfolding clamp update_key
  update m (event_resize w h) = clamp (record m { width = w; height = h })
  update m (event_scanned none err) = record m { scanning = false; err = err }
  update m (event_scanned (some s) err) = clamp (record m {
    scanning = false;
    err = [];
    all = s.findings;
    blind = s.blind;
    health = s.health;
    workloads = s.workloads;
    generated = s.generated;
  })
  update m (event_key k) = update_key m k

  -- The loop of `drainKeys`; the fuel never runs out.
  unfoldable pub drain : ℕ → List ℕ → Model Health → Bool → Option (List ℕ × Model Health)
  unfolding decode_key update drop
  drain zero pending m final = none
  drain (suc fuel) [] m final = some ([], m)
  drain (suc fuel) (c ∷ pending) m final =
      let (k, n) = decode_key (c ∷ pending) final in
      let m' = update m (event_key k) in
      let rest = drop n (c ∷ pending) in
      let next = drain fuel rest m' final in
      if eqb n 0
      then some (c ∷ pending, m)
      else if m'.quit || m'.scanning
      then some (rest, m')
      else next
