-- ===== src/Tui/Tests.antt =====
-- Runs of the decoder and of the model, and the theorems at concrete inputs.
use kubeagent.Prelude.{ℕ, ◌<◌, ◌≡◌, refl, true, false, List, [], ◌∷◌, ◌++◌, length, codes, arith}
use kubeagent.Prelude.Int.{pos, negsuc}
use kubeagent.Findings.{Finding, warning}
use kubeagent.Tui.{KeyKind, Mode, Filter, Model, event_resize}
use kubeagent.Tui.Keys.{plain, decode_key}
use kubeagent.Tui.Stable.{decode_key-stable}
use kubeagent.Tui.Update.{visible, update, drain}
use kubeagent.Tui.Window.{InFrame, update-InFrame}
use kubeagent.Tui.Drain.{Drained, drain-returns}

-- The euro sign, an arrow, an alt chord, and a lead byte that nothing completes.
keys_run :
    (decode_key (226 ∷ 130 ∷ 172 ∷ 106 ∷ []) false
      ≡ (record { rune = 8364; kind = KeyKind.key_rune }, 3))
    × (decode_key (27 ∷ 91 ∷ 65 ∷ []) false ≡ (plain KeyKind.key_up, 3))
    × (decode_key (27 ∷ 106 ∷ []) false ≡ (plain KeyKind.key_esc, 2))
    × ((decode_key (226 ∷ 130 ∷ []) false).1 ≡ 0)
    × (decode_key (226 ∷ 130 ∷ []) true ≡ (plain KeyKind.key_unknown, 1))
unfolding decode_key
keys_run = (refl, refl, refl, refl, refl)

-- An overlong form that no byte can complete is waited for all the same.
overlong_waits : (decode_key (224 ∷ 128 ∷ []) false).1 ≡ 0
unfolding decode_key
overlong_waits = refl

euro_starts : 0 < (decode_key (226 ∷ 130 ∷ 172 ∷ []) false).1
unfolding decode_key
euro_starts = omega arith

decode_key-stable_example :
    decode_key ((226 ∷ 130 ∷ 172 ∷ []) ++ (27 ∷ [])) true ≡ decode_key (226 ∷ 130 ∷ 172 ∷ []) false
decode_key-stable_example = decode_key-stable (226 ∷ 130 ∷ 172 ∷ []) (27 ∷ []) true euro_starts

abbrev cut_arrow : List ℕ
cut_arrow = 27 ∷ 91 ∷ []

abbrev row : Finding
row = record {
  level = warning;
  kind = codes "Service";
  namespace = codes "shop";
  name = codes "orphan";
  issue = codes "NoEndpoints";
  reason = [];
  owner = [];
}

abbrev screen : Model ℕ
screen = record {
  version = [];
  scope = [];
  generated = [];
  health = 0;
  workloads = 0;
  all = row ∷ row ∷ row ∷ [];
  blind = [];
  mode = Mode.mode_list;
  filter = Filter.filter_all;
  cursor = pos 7;
  top = pos 7;
  width = pos 80;
  height = pos 8;
  colour = false;
  scanning = false;
  err = [];
  quit = false;
}

abbrev shown : Model ℕ
shown = update screen (event_resize (pos 80) (pos 8))

-- Eight lines hold two rows of three: the window ends at the last one.
shown_run : (shown.cursor ≡ pos 2) × (shown.top ≡ pos 1)
unfolding update
shown_run = (refl, refl)

abbrev empty_screen : Model ℕ
empty_screen = record screen { all = []; cursor = pos 0; top = pos 0 }

empty-InFrame : InFrame empty_screen
unfolding InFrame visible
empty-InFrame = (refl, refl, refl)

update-InFrame_example : InFrame (update empty_screen (event_resize (pos 20) (negsuc 3)))
update-InFrame_example =
    update-InFrame empty_screen (event_resize (pos 20) (negsuc 3)) empty-InFrame

abbrev typed : List ℕ
typed = 106 ∷ 27 ∷ 91 ∷ []

three_fit : length typed < 4
unfolding length
three_fit = omega arith

drain-returns_example : Drained true (drain 4 typed empty_screen true)
drain-returns_example = drain-returns 4 typed empty_screen true three_fit empty-InFrame
