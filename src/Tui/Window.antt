-- ===== src/Tui/Window.antt =====
-- The screen: what every event keeps of the cursor, the window and the mode.
use kubeagent.Prelude.{
  ℕ, ◌≡◌, refl, Bool, true, false, List, [], ◌∷◌, none, some, length, arith, eqb, if_elim, ◌||◌,
  Text,
}
use kubeagent.Prelude.Int.{ℤ, pos, negsuc, ◌+ℤ◌, ◌-ℤ◌, ◌≤ℤ◌}
use kubeagent.Findings.{Finding}
use kubeagent.Tui.{
  KeyKind, Mode, mode_list, mode_detail, mode_blind, mode_help, filter_all, filter_warning,
  filter_critical, Model, Event, event_key, event_resize, event_scanned,
}
use kubeagent.Tui.Update.{
  at_least_one, list_rows, visible, clamp_to, clamp, move, open_detail, open_on, leave_detail,
  toggle, update_rune, update_kind, update_key, update,
}
use kubeagent.Tui.Placement.{Placed, clamp_Placed}

-- `openDetail` on an empty list opens nothing.
open_on-closed :
    (mode : Mode) → leave_detail mode ≡ mode → leave_detail (open_on mode []) ≡ open_on mode []
open_on-closed mode_list h = refl
open_on-closed mode_detail h = h
open_on-closed mode_blind h = refl
open_on-closed mode_help h = refl

toggle-closed :
    (mode want : Mode)
    → leave_detail want ≡ want
    → leave_detail (toggle mode want) ≡ toggle mode want
toggle-closed mode_list mode_list h = refl
toggle-closed mode_list mode_detail h = h
toggle-closed mode_list mode_blind h = refl
toggle-closed mode_list mode_help h = refl
toggle-closed mode_detail mode_list h = refl
toggle-closed mode_detail mode_detail h = refl
toggle-closed mode_detail mode_blind h = refl
toggle-closed mode_detail mode_help h = refl
toggle-closed mode_blind mode_list h = refl
toggle-closed mode_blind mode_detail h = h
toggle-closed mode_blind mode_blind h = refl
toggle-closed mode_blind mode_help h = refl
toggle-closed mode_help mode_list h = refl
toggle-closed mode_help mode_detail h = h
toggle-closed mode_help mode_blind h = refl
toggle-closed mode_help mode_help h = refl

leave_detail-twice : (mode : Mode) → leave_detail (leave_detail mode) ≡ leave_detail mode
leave_detail-twice mode_list = refl
leave_detail-twice mode_detail = refl
leave_detail-twice mode_blind = refl
leave_detail-twice mode_help = refl

at_least_one-low : (rows : ℤ) → pos 1 ≤ℤ at_least_one rows
at_least_one-low rows = ground arith

module _ {Health : Type 0} where
  -- The screen over a list of findings: nothing is selected and no detail is open on an empty list.
  unfoldable pub Framed : List Finding → Model Health → Type 0
  Framed [] m = (m.cursor ≡ pos 0) × (m.top ≡ pos 0) × (leave_detail m.mode ≡ m.mode)
  Framed (f ∷ fs) m = Placed (length (f ∷ fs)) (at_least_one (list_rows m)) m.cursor m.top

  unfoldable pub InFrame : Model Health → Type 0
  unfolding Framed
  InFrame m = Framed (visible m) m

  clamp_to-Framed : (fs : List Finding) (m : Model Health) → Framed fs (clamp_to fs m)
  unfolding Framed clamp_to length
  clamp_to-Framed [] m = (refl, refl, leave_detail-twice m.mode)
  clamp_to-Framed (f ∷ fs) m =
      clamp_Placed (length fs) (at_least_one (list_rows m)) m.cursor m.top
        (at_least_one-low (list_rows m))

  clamp_to-visible : (fs : List Finding) (m : Model Health) → visible (clamp_to fs m) ≡ visible m
  unfolding visible clamp_to
  clamp_to-visible [] m = refl
  clamp_to-visible (f ∷ fs) m = refl

  clamp-InFrame : (m : Model Health) → InFrame (clamp m)
  unfolding InFrame clamp
  clamp-InFrame m = rw (clamp_to-visible (visible m) m) (clamp_to-Framed (visible m) m)

  -- A change of mode that opens no detail keeps the frame.
  Framed-mode :
      (fs : List Finding) (m : Model Health) (mode : Mode)
      → leave_detail mode ≡ mode
      → Framed fs m
      → Framed fs (record m { mode = mode })
  unfolding Framed list_rows
  Framed-mode [] m mode h (c, t, g) = (c, t, h)
  Framed-mode (f ∷ fs) m mode h g = g

  to_mode-InFrame :
      (m : Model Health) (mode : Mode)
      → leave_detail mode ≡ mode
      → InFrame m
      → InFrame (record m { mode = mode })
  unfolding InFrame visible
  to_mode-InFrame m mode h g = Framed-mode (visible m) m mode h g

  Framed-open :
      (fs : List Finding) (m : Model Health)
      → Framed fs m
      → Framed fs (record m { mode = open_on m.mode fs })
  unfolding Framed list_rows
  Framed-open [] m (c, t, g) = (c, t, open_on-closed m.mode g)
  Framed-open (f ∷ fs) m g = g

  open_detail-InFrame : (m : Model Health) → InFrame m → InFrame (open_detail m)
  unfolding InFrame open_detail visible
  open_detail-InFrame m h = Framed-open (visible m) m h

  -- What leaves the list, the cursor, the window and the mode alone keeps the frame.
  Framed-flags :
      (fs : List Finding) (m : Model Health) (scanning quit : Bool) (err : Text)
      → Framed fs m
      → Framed fs (record m { scanning = scanning; quit = quit; err = err })
  unfolding Framed list_rows
  Framed-flags [] m s q e h = h
  Framed-flags (f ∷ fs) m s q e h = h

  flags-InFrame :
      (m : Model Health) (scanning quit : Bool) (err : Text)
      → InFrame m
      → InFrame (record m { scanning = scanning; quit = quit; err = err })
  unfolding InFrame visible
  flags-InFrame m s q e h = Framed-flags (visible m) m s q e h

  move-InFrame : (m : Model Health) (delta : ℤ) → InFrame (move m delta)
  unfolding move
  move-InFrame m delta = clamp-InFrame (record m { cursor = m.cursor +ℤ delta })

  update_rune-InFrame : (m : Model Health) (r : ℕ) → InFrame m → InFrame (update_rune m r)
  unfolding update_rune
  update_rune-InFrame m r h =
      if_elim InFrame (eqb r 113) _ _ (λ e. flags-InFrame m m.scanning true m.err h)
        λ e.
          if_elim InFrame (eqb r 106) _ _ (λ e. move-InFrame m (pos 1))
            λ e.
              if_elim InFrame (eqb r 107) _ _ (λ e. move-InFrame m (negsuc 0))
                λ e.
                  if_elim InFrame (eqb r 108) _ _ (λ e. open_detail-InFrame m h)
                    λ e.
                      if_elim InFrame (eqb r 104) _ _ (λ e. to_mode-InFrame m mode_list refl h)
                        λ e.
                          if_elim InFrame (eqb r 103) _ _
                            (λ e. clamp-InFrame (record m { cursor = pos 0 }))
                            λ e.
                              if_elim InFrame (eqb r 71) _ _
                                (λ e.
                                  clamp-InFrame
                                    (record m { cursor = pos (length (visible m)) -ℤ pos 1 }))
                                λ e.
                                  if_elim InFrame (eqb r 49) _ _
                                    (λ e. clamp-InFrame (record m { filter = filter_critical }))
                                    λ e.
                                      if_elim InFrame (eqb r 50) _ _
                                        (λ e. clamp-InFrame (record m { filter = filter_warning }))
                                        λ e.
                                          if_elim InFrame (eqb r 48 || eqb r 97) _ _
                                            (λ e. clamp-InFrame (record m { filter = filter_all }))
                                            λ e.
                                              if_elim InFrame (eqb r 98) _ _
                                                (λ e.
                                                  to_mode-InFrame m (toggle m.mode mode_blind)
                                                    (toggle-closed m.mode mode_blind refl) h)
                                                λ e.
                                                  if_elim InFrame (eqb r 63) _ _
                                                    (λ e.
                                                      to_mode-InFrame m (toggle m.mode mode_help)
                                                        (toggle-closed m.mode mode_help refl) h)
                                                    λ e.
                                                      if_elim InFrame (eqb r 114) _ _
                                                        (λ e. flags-InFrame m true m.quit m.err h)
                                                        λ e. h

  update_kind-InFrame :
      (m : Model Health) (k : KeyKind) (r : ℕ) → InFrame m → InFrame (update_kind m k r)
  unfolding update_kind
  update_kind-InFrame m KeyKind.key_ctrl_c r h = flags-InFrame m m.scanning true m.err h
  update_kind-InFrame m KeyKind.key_up r h = move-InFrame m (negsuc 0)
  update_kind-InFrame m KeyKind.key_down r h = move-InFrame m (pos 1)
  update_kind-InFrame m KeyKind.key_enter r h = open_detail-InFrame m h
  update_kind-InFrame m KeyKind.key_right r h = open_detail-InFrame m h
  update_kind-InFrame m KeyKind.key_esc r h = to_mode-InFrame m mode_list refl h
  update_kind-InFrame m KeyKind.key_left r h = to_mode-InFrame m mode_list refl h
  update_kind-InFrame m KeyKind.key_rune r h = update_rune-InFrame m r h
  update_kind-InFrame m KeyKind.key_unknown r h = h

  -- Every event keeps the frame, whatever the key, the size of the terminal and the findings of a
  -- new scan: the cursor is on the filtered list, the window holds the cursor and has no blank rows
  -- while findings are scrolled off above it, and no detail is open on an empty list.
  pub update-InFrame : (m : Model Health) (e : Event Health) → InFrame m → InFrame (update m e)
  unfolding update update_key
  update-InFrame m (event_resize w g) h = clamp-InFrame (record m { width = w; height = g })
  update-InFrame m (event_scanned none err) h = flags-InFrame m false m.quit err h
  update-InFrame m (event_scanned (some s) err) h = clamp-InFrame (record m {
    scanning = false;
    err = [];
    all = s.findings;
    blind = s.blind;
    health = s.health;
    workloads = s.workloads;
    generated = s.generated;
  })
  update-InFrame m (event_key k) h = update_kind-InFrame m k.kind k.rune h
