-- ===== src/Synth/Loading.antt =====
-- Synth.cpp: `clear`, `addEndpointsToVelocityCurve` and `loadSfzFile`.
pub mod Curve
pub mod Kept
pub mod Lists
pub mod Whole
use sfizz.Base.{
  ℕ, zero, suc, ◌+◌, ◌-◌, ◌%◌, ◌^◌, Bool, true, false, not, ◌&&◌, ◌||◌, List, [], ◌∷◌, ◌++◌, Option,
  none, some, ltb, leb, ◌==◌, if◌then◌else◌, map, length, get_or, get_elem?, replicate, length,
}
use Prim.Native.Nat.{min}
use sfizz.Base.Int.{pos}
use sfizz.Float.{FloatOps, of_nat}
use sfizz.Range.{nat_order, contains_with_end, shrink_if_smaller}
use sfizz.CcMap
use sfizz.FilePool
use sfizz.FilePool.{FilePool, FileSystem, FileInformation, get_file_information, set_root_directory}
use sfizz.Region.{Region, Amplifier}
use sfizz.Region.Triggers.{
  is_generator, register_note_on, register_note_off, register_cc, register_pitch_wheel,
  register_aftertouch, register_tempo,
}
use sfizz.Opcode.{Numbers, Opcode}
use sfizz.Voice.Events.{reset}
use sfizz.Synth.{Synth}
use sfizz.Synth.Headers.{callback}

module _ {F : Type 0} where
  unfoldable pub note_activates : ℕ → Region F → Bool
  note_activates note r =
      contains_with_end r.conditions.key_range note
      || contains_with_end r.conditions.keyswitch_range note

  unfoldable pub cc_activates : ℕ → Region F → Bool
  unfolding CcMap.contains
  cc_activates cc r =
      CcMap.contains r.conditions.cc_triggers cc || CcMap.contains r.conditions.cc_conditions cc

  -- The two loops that push the region, here at its place, onto the lists that it answers to.
  unfoldable pub activate : Synth F → ℕ → Region F → Synth F
  unfolding note_activates cc_activates
  activate s place r = record s {
    note_activation_lists = λ note.
        let list = s.note_activation_lists note in
        if ltb note 128 && note_activates note r then list ++ (place ∷ []) else list;
    cc_activation_lists = λ cc.
        let list = s.cc_activation_lists cc in
        if ltb cc 128 && cc_activates cc r then list ++ (place ∷ []) else list;
  }

-- The last of an element and the elements behind it, and those before the last.
unfoldable pub last_or : {A : Type 0} → A → List A → A
last_or a [] = a
last_or a (b ∷ rest) = last_or b rest

unfoldable pub init : {A : Type 0} → A → List A → List A
init a [] = []
init a (b ∷ rest) = a ∷ init b rest

-- `iter_swap` of the first and the last region of the segment, and `lastRegion--`.
unfoldable pub swap_last : {A : Type 0} → List A → List A
unfolding last_or init
swap_last [] = []
swap_last (a ∷ []) = []
swap_last (a ∷ b ∷ rest) = last_or b rest ∷ init b rest

module _ {F : Type 0} ⦃o : FloatOps F⦄ where
  abbrev nought : F
  nought = of_nat 0

  abbrev one : F
  one = of_nat 1

  -- The points are those behind the sort, and there are some.
  unfoldable pub endpoints : Bool → ℕ × F → List (ℕ × F) → List (ℕ × F)
  unfolding last_or
  endpoints rising first rest =
      let points = first ∷ rest in
      let back = (last_or first rest).0 in
      if rising
      then (let ended = if back == 127 then points else points ++ ((127, one) ∷ []) in
          if first.0 == 0 then ended else (0, nought) ∷ ended)
      else (let begun = if first.0 == 127 then points else (127, nought) ∷ points in
          if back == 0 then begun else begun ++ ((0, one) ∷ []))

  -- `absl::c_sort` of the points by their velocities is a parameter.
  unfoldable pub add_endpoints : (List (ℕ × F) → List (ℕ × F)) → Amplifier F → Amplifier F
  unfolding endpoints
  add_endpoints sort_points a = elim (sort_points a.velocity_points) [
    | [] ↦ a
    | first ∷ rest ↦ record a {
      velocity_points = endpoints (o.lt nought a.amp_veltrack) first rest;
    }
  ]

  unfoldable pub clear : Synth F → Synth F
  unfolding reset FilePool.clear
  clear s = record s {
    voices = map (λ v. reset v) s.voices;
    note_activation_lists = λ note. [];
    cc_activation_lists = λ cc. [];
    regions = [];
    file_pool = FilePool.clear s.file_pool;
    has_global = false;
    has_control = false;
    num_groups = 0;
    num_masters = 0;
    num_curves = 0;
    file_ticket = 2 ^ 32 - 1;
    default_switch = none;
    midi_state = record s.midi_state { cc = map (λ value. 0) s.midi_state.cc };
    cc_names = [];
    global_opcodes = [];
    master_opcodes = [];
    group_opcodes = [];
    can_enter_callback = true;
  }

  -- The controllers from the given one on.
  unfoldable pub register_ccs : List ℕ → ℕ → ℕ → Region F → Region F
  unfolding register_cc
  register_ccs ccs cc zero r = r
  register_ccs ccs cc (suc left) r =
      register_ccs ccs (suc cc) left
        (register_cc r r.conditions.channel_range.start cc (get_or ccs cc 0)).0

  unfoldable pub press_default : Option ℕ → Region F → Region F
  unfolding register_note_on register_note_off
  press_default none r = r
  press_default (some note) r =
      let channel = r.conditions.channel_range.start in
      let pressed = (register_note_on r channel note 127 one).0 in
      (register_note_off pressed channel note 0 one).0

  unfoldable pub set_defaults :
      (List (ℕ × F) → List (ℕ × F)) → List ℕ → Option ℕ → Region F → Region F
  set_defaults sort_points ccs switch r =
      let pressed = press_default switch (register_ccs ccs 1 127 r) in
      let curved = record pressed { amplifier = add_endpoints sort_points pressed.amplifier } in
      let channel = r.conditions.channel_range.start in
      register_tempo (register_aftertouch (register_pitch_wheel curved channel (pos 0)) channel 0)
        (of_nat 2)

  -- What the file tells of the region.
  unfoldable pub with_file : Region F → FileInformation F → Region F
  unfolding shrink_if_smaller
  with_file r info = record r {
    sound = record r.sound {
      sample_end = min r.sound.sample_end info.end;
      loop_range = shrink_if_smaller r.sound.loop_range info.loop_begin info.loop_end;
    };
    preloaded_data = some info.preloaded_data;
    sample_rate = info.sample_rate;
  }

  module _ (sort_points : List (ℕ × F) → List (ℕ × F)) where
    -- A region that is kept: it is put on its lists and gets its defaults, and the loop goes on.
    unfoldable pub keep : Synth F → Region F → Synth F
    unfolding activate
    keep s r =
        let s' = activate s (length s.regions) r in
        let r' = set_defaults sort_points s.midi_state.cc s.default_switch r in
        record s' { regions = s.regions ++ (r' ∷ []) }

    -- A region without its file is dropped.
    unfoldable pub keep_found :
        Synth F
        → Region F
        → List (Region F)
        → Option (FileInformation F)
        → Synth F × List (Region F)
    keep_found s r rest none = (s, swap_last (r ∷ rest))
    keep_found s r rest (some info) = (keep s (with_file r info), rest)

  -- The offsets are added in `uint32_t`.
  unfoldable pub ask_file :
      FileSystem F → Synth F → Region F → FilePool F × Option (FileInformation F)
  ask_file files s r =
      get_file_information files s.file_pool r.sound.sample
        ((r.sound.offset + r.sound.offset_random) % 2 ^ 32)

  module _ (sort_points : List (ℕ × F) → List (ℕ × F)) (files : FileSystem F) where
    -- One round of the loop: the regions that are done are in the synth, and `r ∷ rest` are those
    -- from `currentRegion` to `lastRegion`.
    unfoldable pub load_step : Synth F → Region F → List (Region F) → Synth F × List (Region F)
    unfolding keep_found
    load_step s r rest =
        if is_generator r.sound
        then (keep sort_points s r, rest)
        else keep_found sort_points (record s { file_pool = (ask_file files s r).0 }) r rest
            (ask_file files s r).1

    -- The loop, by the count of the regions that are left.
    unfoldable pub load_regions : ℕ → Synth F → List (Region F) → Synth F
    unfolding load_step
    load_regions zero s segment = s
    load_regions (suc n) s [] = s
    load_regions (suc n) s (r ∷ rest) =
        let (s', segment) = load_step s r rest in load_regions n s' segment

    -- Behind the parser: the loop over the regions, if there are any.
    unfoldable pub load_parsed : Synth F → List (Region F) → Synth F × Bool
    load_parsed s [] = (s, false)
    load_parsed s (r ∷ regions) =
        let pool = set_root_directory s.file_pool s.root_directory in
        let start = record s { file_pool = pool; regions = [] } in
        (load_regions (suc (length regions)) start (r ∷ regions), true)

  module _ (numbers : Numbers F) (exists : List ℕ → Bool) where
    unfoldable pub call_back : Synth F → List (List ℕ × List Opcode) → Synth F
    unfolding callback
    call_back s [] = s
    call_back s ((header, members) ∷ headers) =
        call_back (callback numbers exists s header members) headers

    -- The parser gives its root directory, and the headers with their opcodes, or `none` without a
    -- file. The answer is whether the parser found one that has regions.
    unfoldable pub load_sfz_file :
        (List (ℕ × F) → List (ℕ × F))
        → FileSystem F
        → Synth F
        → Option (List ℕ × List (List ℕ × List Opcode))
        → Synth F × Bool
    unfolding clear call_back load_parsed
    load_sfz_file sort_points files s none = (clear s, false)
    load_sfz_file sort_points files s (some (root, headers)) =
        let s' = call_back (record (clear s) { root_directory = root }) headers in
        load_parsed sort_points files s' s'.regions
