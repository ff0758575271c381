-- ===== src/Cec.antt =====
-- include/cec_input.hpp and src/cec_input.cpp: the commands of a remote control, and the filter of
-- its navigation keys. The codes of linux/cec.h are a parameter. Times are nanoseconds of a clock.
pub mod Held
use picdplayer.Prelude.{
  ℕ, ◌-◌, ◌*◌, Bool, true, false, not, ◌&&◌, ◌||◌, Option, none, some, List, if◌then◌else◌, ltb,
  ◌==◌, codes,
}

pub data CecCommand : Type 0 where
  play pause stop next previous seek_forward seek_backward : CecCommand

pub data CecNavigation : Type 0 where
  up down left right select back : CecNavigation

-- CEC_OP_UI_CMD_*
pub record UiCodes : Type 0 where
  pub cmd_play : ℕ
  pub cmd_pause : ℕ
  pub cmd_stop : ℕ
  pub cmd_skip_forward : ℕ
  pub cmd_skip_backward : ℕ
  pub cmd_fast_forward : ℕ
  pub cmd_rewind : ℕ
  pub cmd_up : ℕ
  pub cmd_down : ℕ
  pub cmd_left : ℕ
  pub cmd_right : ℕ
  pub cmd_select : ℕ
  pub cmd_back : ℕ

abbrev pub cec_command_name : CecCommand → List ℕ
cec_command_name CecCommand.play = codes "play"
cec_command_name CecCommand.pause = codes "pause"
cec_command_name CecCommand.stop = codes "stop"
cec_command_name CecCommand.next = codes "next"
cec_command_name CecCommand.previous = codes "previous"
cec_command_name CecCommand.seek_forward = codes "seek_forward"
cec_command_name CecCommand.seek_backward = codes "seek_backward"

abbrev pub cec_navigation_name : CecNavigation → List ℕ
cec_navigation_name CecNavigation.up = codes "up"
cec_navigation_name CecNavigation.down = codes "down"
cec_navigation_name CecNavigation.left = codes "left"
cec_navigation_name CecNavigation.right = codes "right"
cec_navigation_name CecNavigation.select = codes "select"
cec_navigation_name CecNavigation.back = codes "back"

pub record CecNavigationFilter : Type 0 where
  pub pressed_code : Option ℕ
  pub source : ℕ
  pub last_received : ℕ
  pub last_emitted : ℕ

abbrev pub new_filter : CecNavigationFilter
new_filter = record { pressed_code = none; source = 255; last_received = 0; last_emitted = 0 }

abbrev pub ms : ℕ → ℕ
ms n = n * 1000000

abbrev pub is_code : Option ℕ → ℕ → Bool
is_code none code = false
is_code (some c) code = c == code

abbrev pub is_direction : CecNavigation → Bool
is_direction CecNavigation.select = false
is_direction CecNavigation.back = false
is_direction CecNavigation.up = true
is_direction CecNavigation.down = true
is_direction CecNavigation.left = true
is_direction CecNavigation.right = true

module _ (u : UiCodes) where
  unfoldable pub cec_command_from_ui_code : ℕ → Option CecCommand
  cec_command_from_ui_code ui_code =
      if ui_code == u.cmd_play
      then some CecCommand.play
      else if ui_code == u.cmd_pause
      then some CecCommand.pause
      else if ui_code == u.cmd_stop
      then some CecCommand.stop
      else if ui_code == u.cmd_skip_forward
      then some CecCommand.next
      else if ui_code == u.cmd_skip_backward
      then some CecCommand.previous
      else if ui_code == u.cmd_fast_forward
      then some CecCommand.seek_forward
      else if ui_code == u.cmd_rewind
      then some CecCommand.seek_backward
      else none

  unfoldable pub cec_navigation_from_ui_code : ℕ → Option CecNavigation
  cec_navigation_from_ui_code ui_code =
      if ui_code == u.cmd_up
      then some CecNavigation.up
      else if ui_code == u.cmd_down
      then some CecNavigation.down
      else if ui_code == u.cmd_left
      then some CecNavigation.left
      else if ui_code == u.cmd_right
      then some CecNavigation.right
      else if ui_code == u.cmd_select
      then some CecNavigation.select
      else if ui_code == u.cmd_back
      then some CecNavigation.back
      else none

  -- press, once the code is known to be one of a navigation key.
  unfoldable pub press_navigation :
      CecNavigationFilter
      → Option CecNavigation
      → ℕ
      → ℕ
      → ℕ
      → Option CecNavigation × CecNavigationFilter
  press_navigation f none code source now = (none, f)
  press_navigation f (some navigation) code source now =
      let repeated =
        is_code f.pressed_code code
        && (f.source == source)
        && ltb (now - f.last_received) (ms 500) in
      if repeated && (not (is_direction navigation) || ltb (now - f.last_emitted) (ms 150))
      then (none, record f { pressed_code = some code; source = source; last_received = now })
      else (
        some navigation,
        record {
          pressed_code = some code;
          source = source;
          last_received = now;
          last_emitted = now;
        },
      )

  unfoldable pub press :
      CecNavigationFilter → ℕ → ℕ → ℕ → Option CecNavigation × CecNavigationFilter
  unfolding press_navigation
  press f code source now = press_navigation f (cec_navigation_from_ui_code code) code source now

unfoldable pub release : CecNavigationFilter → ℕ → CecNavigationFilter
release f source = if f.source == source then record f { pressed_code = none } else f
