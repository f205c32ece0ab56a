-- ===== src/Tui.antt =====
-- internal/tui: the terminal UI as a pure function of its events. `Tui.Keys` is key.go, `Tui.Update`
-- the rest of model.go. The screen's drawing and the terminal are not modelled.
pub mod Runes
pub mod Keys
pub mod Stable
pub mod Update
pub mod Placement
pub mod Window
pub mod Drain
mod Tests
use kubeagent.Prelude.{ℕ, Bool, List, Option, Text}
use kubeagent.Prelude.Int.{ℤ}
use kubeagent.Findings.{Finding}
use kubeagent.Findings.Sources.{ReadFailure}

pub data KeyKind : Type 0 where
  key_rune key_up key_down key_left key_right key_enter key_esc key_ctrl_c key_unknown : KeyKind

-- `rune` is 0 unless the kind is `key_rune`.
pub record Press : Type 0 where
  pub rune : ℕ
  pub kind : KeyKind

pub data Mode : Type 0 where
  mode_list mode_detail mode_blind mode_help : Mode

pub data Filter : Type 0 where
  filter_all filter_warning filter_critical : Filter

module _ (Health : Type 0) where
  pub record Model : Type 0 where
    pub version : Text
    pub scope : Text
    pub generated : Text
    pub health : Health
    pub workloads : ℕ
    pub all : List Finding
    pub blind : List ReadFailure
    pub mode : Mode
    pub filter : Filter
    pub cursor : ℤ
    pub top : ℤ
    pub width : ℤ
    pub height : ℤ
    pub colour : Bool
    pub scanning : Bool
    pub err : Text
    pub quit : Bool

  -- The part of a scan that the UI keeps.
  pub record ScanSnapshot : Type 0 where
    pub findings : List Finding
    pub blind : List ReadFailure
    pub health : Health
    pub workloads : ℕ
    pub generated : Text

  -- One constructor for each kind of event, with the fields that are meaningful for it.
  pub data Event : Type 0 where
    event_key : Press → Event
    event_resize : ℤ → ℤ → Event
    event_scanned : Option ScanSnapshot → Text → Event
