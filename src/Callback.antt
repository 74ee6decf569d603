-- ===== src/Callback.antt =====
-- sfizz/AtomicGuard.h and its use in sfizz/Synth.cpp: how the audio callbacks and the calls that
-- change the instrument keep out of each other's way, as steps of two threads over the two atomic
-- flags. Each step reads or writes one flag.
pub mod Exclusion
use sfizz.Base.{Bool, true, false, ◌≡◌}

-- `renderBlock`, `noteOn`, `noteOff` or `cc`: between calls; past `if (!canEnterCallback) return`;
-- and behind the constructor of the `AtomicGuard`, in the body.
pub data Audio : Type 0 where
  outside checked rendering : Audio

-- `clear`, `loadSfzFile`, `setSampleRate` or `setSamplesPerBlock`: between calls; behind the constructor of the
-- `AtomicDisabler`, in the loop that waits for `inCallback`; and past that loop, in the body.
pub data Control : Type 0 where
  away waiting changing : Control

pub record Threads : Type 0 where
  pub can_enter : Bool
  pub in_callback : Bool
  pub audio : Audio
  pub control : Control

abbrev pub start : Threads
start = record {
  can_enter = true;
  in_callback = false;
  audio = Audio.outside;
  control = Control.away;
}

pub data Step (s : Threads) : Threads → Type 0 where
  -- The audio thread.
  refuse : s.audio ≡ Audio.outside → s.can_enter ≡ false → Step s s
  check : s.audio ≡ Audio.outside → s.can_enter ≡ true → Step s (record s { audio = Audio.checked })
  enter :
      s.audio ≡ Audio.checked → Step s (record s { audio = Audio.rendering; in_callback = true })
  leave :
      s.audio ≡ Audio.rendering → Step s (record s { audio = Audio.outside; in_callback = false })
  -- `noteOn` in its body calls `noteOff`, whose own guard sets the flag and clears it at its end.
  enter_inner :
      s.audio ≡ Audio.rendering → s.can_enter ≡ true → Step s (record s { in_callback = true })
  leave_inner : s.audio ≡ Audio.rendering → Step s (record s { in_callback = false })
  -- The other thread.
  disable :
      s.control ≡ Control.away → Step s (record s { control = Control.waiting; can_enter = false })
  wait : s.control ≡ Control.waiting → s.in_callback ≡ true → Step s s
  begin :
      s.control ≡ Control.waiting
      → s.in_callback ≡ false
      → Step s (record s { control = Control.changing })
  enable :
      s.control ≡ Control.changing → Step s (record s { control = Control.away; can_enter = true })
  -- `loadSfzFile` in its body calls `clear`, whose own disabler waits once more and lets callbacks
  -- in at its end.
  disable_inner : s.control ≡ Control.changing → Step s (record s { can_enter = false })
  wait_inner : s.control ≡ Control.changing → s.in_callback ≡ true → Step s s
  enable_inner : s.control ≡ Control.changing → Step s (record s { can_enter = true })

pub data Reach (s : Threads) : Threads → Type 0 where
  here : Reach s s
  next : {t u : Threads} → Reach s t → Step t u → Reach s u
