-- ===== src/Dispatcher/Tests.antt =====
-- The theorems on the dispatcher at runs of a few messages.
use mathlib.Core.List.{lookup}
use minotaur.Base.{
  ℕ, ◌++◌, List, [], ◌∷◌, true, false, some, ret, panic, ◌≡◌, refl, arith, ℕ_discrete,
}
use minotaur.Base.Int.{pos, ◌+ℤ◌, wrap64}
use minotaur.SyncMap.{put_entry}
use minotaur.Dispatcher.{
  act_expel, new_dispatcher, put_count, add_counts, count_of, no_lock_expel, no_lock_un_expel,
  close_abort, call_done, write_message, settle_count, set_producer_done_handler, run_handler,
  set_closed_handler,
}
use minotaur.Dispatcher.Steps.{
  System, Event, selecting, handling, stopped, starts, counts, writes, takes, aborts, settles,
  expels, un_expels, sets_done, sets_closed, new_system, run, step, pick, take_message, settle,
  start, write_picked, settled,
}
use minotaur.Dispatcher.Tally.{IsTallied}
use minotaur.Dispatcher.Ends.{Drained, run-IsTallied, stops-Drained}
use minotaur.Dispatcher.Drain.{HasEnded}
use minotaur.Dispatcher.Fair.{OwnOnly, evicted-HasEnded}
use minotaur.Dispatcher.Expel.{expel_twice}

-- A message is its producer and a number.
abbrev producer : ℕ × ℕ → ℕ
producer m = m.0

-- Two messages of producers 1 and 2, where the handler of 1 calls `Expel` when it is done.
abbrev put_two : List (Event ℕ (ℕ × ℕ))
put_two =
    starts
    ∷ sets_closed
    ∷ counts (1, 7)
    ∷ writes 0
    ∷ counts (2, 8)
    ∷ writes 0
    ∷ sets_done 1 (some (act_expel ∷ []))
    ∷ expels
    ∷ []

abbrev planned : System ℕ (ℕ × ℕ)
planned = record {
  d = record {
    buf = (1, 7) ∷ (2, 8) ∷ [];
    closed = false;
    expel = true;
    mc = pos 2;
    pmc = (1, pos 1) ∷ (2, pos 1) ∷ [];
    pmc_f = (1, act_expel ∷ []) ∷ [];
    closed_handler = true;
    abort = false;
  };
  writing = [];
  worker = selecting;
  handled = [];
  told = false;
}

put_two-planned : run ℕ_discrete producer new_system put_two ≡ ret planned
unfolding run step new_system new_dispatcher set_closed_handler put_count add_counts count_of
    put_entry wrap64 ◌+ℤ◌ ℕ_discrete lookup pick write_picked write_message start
    set_producer_done_handler no_lock_expel run_handler
put_two-planned = refl

run-IsTallied_example : IsTallied 2 0 0 planned
run-IsTallied_example =
    run-IsTallied ℕ_discrete producer put_two planned (omega arith) put_two-planned (omega arith)
      (omega arith)

evicted-HasEnded_example :
    (s' : System ℕ (ℕ × ℕ)) × (es' : List (Event ℕ (ℕ × ℕ))) × OwnOnly es'
    × (run ℕ_discrete producer planned ((takes ∷ aborts ∷ settles ∷ settles ∷ takes ∷ []) ++ es')
        ≡ ret s')
    × HasEnded ℕ_discrete producer ((1, 7) ∷ (2, 8) ∷ []) planned s'
evicted-HasEnded_example =
    evicted-HasEnded ℕ_discrete producer (takes ∷ aborts ∷ settles ∷ settles ∷ takes ∷ []) (1, 7)
      ((2, 8) ∷ []) planned tt
      (record {
        idle = refl;
        open_ = refl;
        unaborted = refl;
        planned = refl;
        holds = refl;
        counted = refl;
        evicting = (tt, tt);
      })
      (omega arith)

-- The second of the messages is being handled.
abbrev put_two_handling : List (Event ℕ (ℕ × ℕ))
put_two_handling = put_two ++ takes ∷ settles ∷ takes ∷ []

abbrev at_last : System ℕ (ℕ × ℕ)
at_last = record planned {
  d = record (planned.d) { buf = []; mc = pos 1; pmc = (1, pos 0) ∷ (2, pos 1) ∷ [] };
  worker = handling (2, 8);
  handled = (1, 7) ∷ (2, 8) ∷ [];
}

abbrev ended : System ℕ (ℕ × ℕ)
ended = record at_last {
  d = record (at_last.d) { closed = true; mc = pos 0; pmc = (1, pos 0) ∷ (2, pos 0) ∷ [] };
  worker = stopped;
  told = true;
}

at_last-run : run ℕ_discrete producer new_system put_two_handling ≡ ret at_last
unfolding run step new_system new_dispatcher set_closed_handler put_count add_counts count_of
    put_entry wrap64 ◌+ℤ◌ ℕ_discrete lookup pick write_picked write_message start
    set_producer_done_handler no_lock_expel run_handler take_message settle settle_count settled
    call_done
at_last-run = refl

ended-step : step ℕ_discrete producer at_last settles ≡ ret ended
unfolding step settle settle_count settled call_done add_counts count_of put_entry wrap64 ◌+ℤ◌
    ℕ_discrete lookup
ended-step = refl

stops-Drained_example : Drained ended
stops-Drained_example =
    stops-Drained ℕ_discrete producer put_two_handling at_last ended (2, 8) (omega arith)
      at_last-run refl ended-step refl (omega arith) (omega arith)

-- Nothing has been put.
abbrev idle : System ℕ (ℕ × ℕ)
idle = record planned {
  d = record (planned.d) { buf = []; mc = pos 0; pmc = []; pmc_f = []; expel = false };
}

-- `Expel` and `UnExpel` have been called.
abbrev un_expelled : System ℕ (ℕ × ℕ)
un_expelled = record idle { d = record (idle.d) { abort = true } }

un_expelled-run : run ℕ_discrete producer idle (expels ∷ un_expels ∷ []) ≡ ret un_expelled
unfolding run step no_lock_expel no_lock_un_expel close_abort
un_expelled-run = refl

expel_twice_example : step ℕ_discrete producer un_expelled expels ≡ panic
expel_twice_example =
    expel_twice ℕ_discrete producer (un_expels ∷ []) idle un_expelled refl refl un_expelled-run refl
