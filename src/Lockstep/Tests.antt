-- ===== src/Lockstep/Tests.antt =====
-- The theorems on lockstep at a broadcast of two frames.
use mathlib.Core.List.{lookup}
use minotaur.Base.{ℕ, List, [], ◌∷◌, true, ret, ◌≡◌, refl, ℕ_discrete}
use minotaur.Base.Int.{ℤ, pos, ◌+ℤ◌, ◌-ℤ◌, wrap64}
use minotaur.SyncMap.{put_entry}
use minotaur.Lockstep.{
  Lockstep, Setting, frame_limit_of, new_lockstep, default_lockstep, with_settings, with_setting,
  with_frame_limit, start_broadcast, new_ticker, spawn, check, advance, pick_taken, add_command,
  cached, frame_of, dec_frame,
}
use minotaur.Lockstep.Broadcast.{broadcast_taken, broadcast_loop_to, join_client, catch_up}
use minotaur.Lockstep.Events.{
  Event, starting, spawning, checking, advancing, broadcasting, joining, commanding, happens,
  all_happen,
}
use minotaur.Lockstep.Shared.{frames_agree}

abbrev self : ℕ → ℕ
self w = w

-- The bytes of a frame are the frame and its commands.
abbrev plain : ℤ → List ℕ → ℤ × List ℕ
plain i commands = (i, commands)

abbrev settings : List Setting
settings = frame_limit_of (pos 3) ∷ []

abbrev two_ticks : List (Event ℕ ℕ ℕ)
two_ticks =
    joining 1
    ∷ starting
    ∷ commanding 7
    ∷ spawning
    ∷ checking
    ∷ advancing
    ∷ broadcasting 0
    ∷ joining 2
    ∷ spawning
    ∷ checking
    ∷ advancing
    ∷ broadcasting 0
    ∷ []

abbrev two_frames : Lockstep ℕ ℕ ℕ (ℤ × List ℕ)
two_frames = record {
  running = true;
  init_frame = pos 0;
  frame_rate = pos 15;
  frame_limit = pos 0;
  clients = (1, 1) ∷ (2, 2) ∷ [];
  client_frame = (1, pos 2) ∷ (2, pos 2) ∷ [];
  current_frame = pos 2;
  current_commands = [];
  frame_cache = (pos 0, (pos 0, 7 ∷ [])) ∷ (pos 1, (pos 1, [])) ∷ [];
  ticker = true;
  stopped_events = 0;
  spawned = 0;
  checked = 0;
  advanced = [];
  halted = 0;
  sent =
      (1, pos 0, (pos 0, 7 ∷ []))
      ∷ (1, pos 1, (pos 1, []))
      ∷ (2, pos 0, (pos 0, 7 ∷ []))
      ∷ (2, pos 1, (pos 1, []))
      ∷ [];
}

two_ticks-run : all_happen ℕ_discrete self plain (new_lockstep settings) two_ticks ≡ ret two_frames
unfolding all_happen happens new_lockstep default_lockstep with_settings with_setting
    with_frame_limit start_broadcast new_ticker spawn check advance pick_taken broadcast_taken
    broadcast_loop_to join_client add_command catch_up cached frame_of dec_frame put_entry lookup
    ℕ_discrete wrap64 ◌+ℤ◌ ◌-ℤ◌
two_ticks-run = refl

abbrev first_frame : ℤ × List ℕ
first_frame = (pos 0, 7 ∷ [])

frames_agree_example : first_frame ≡ first_frame
frames_agree_example =
    frames_agree ℕ_discrete self plain settings two_ticks two_frames
      (tt, (tt, (tt, (tt, (tt, (tt, (tt, (tt, (tt, (tt, (tt, (tt, tt)))))))))))) two_ticks-run 0 2
      (pos 0) 1 2 first_frame first_frame refl refl
